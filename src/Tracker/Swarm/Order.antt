-- ===== src/Tracker/Swarm/Order.antt =====
-- The order of a swarm's rows: `ORDER BY` of `get_swarm` in src/shardnet/tracker/store.py.
use mathlib.Core.List.{Perm}
use mathlib.Core.List.Perm
use shard_net.Base.{
  Bool, true, false, List, [], ◌∷◌, ◌≡◌, refl, arith, All, any, ◌||◌, text_leb_total,
  text_leb_trans, Bool-cases, inl, inr,
}
use shard_net.Base.Rows.Laws.{All-imp}
use shard_net.Tracker.Swarm.{Joined, in_order, insert_row, order_rows}

-- Every row stands before all that come later.
abbrev pub IsOrdered : List Joined → Type 0
IsOrdered [] = Unit
IsOrdered (x ∷ xs) = All (λ y. in_order x y ≡ true) xs × IsOrdered xs

in_order_total : (x y : Joined) → in_order x y ≡ false → in_order y x ≡ true
unfolding in_order
in_order_total (p, s) (q, t) h = ground (arith, text_leb_total p.peer_id q.peer_id)

in_order_trans : (x y z : Joined) → in_order x y ≡ true → in_order y z ≡ true → in_order x z ≡ true
unfolding in_order
in_order_trans (p, s) (q, t) (r, u) h k =
    ground (arith, text_leb_trans p.peer_id q.peer_id r.peer_id)

insert_row-All :
    (P : Joined → Type 0) (x : Joined) (xs : List Joined) → P x → All P xs → All P (insert_row x xs)
unfolding insert_row
insert_row-All P x [] p h = (p, tt)
insert_row-All P x (y ∷ ys) p h = elim (Bool-cases (in_order x y)) [
  | inl first ↦ rw first (p, h)
  | inr later ↦ rw later (h.0, insert_row-All P x ys p h.1)
]

insert_row-IsOrdered : (x : Joined) (xs : List Joined) → IsOrdered xs → IsOrdered (insert_row x xs)
unfolding insert_row
insert_row-IsOrdered x [] h = (tt, tt)
insert_row-IsOrdered x (y ∷ ys) h = elim (Bool-cases (in_order x y)) [
  | inl first ↦ rw first (
    (
      first,
      All-imp (λ z. in_order y z ≡ true) (λ z. in_order x z ≡ true) ys
          (λ z. in_order_trans x y z first) h.0,
    ),
    h,
  )
  | inr later ↦ rw later (
    insert_row-All (λ z. in_order y z ≡ true) x ys (in_order_total x y later) h.0,
    insert_row-IsOrdered x ys h.1,
  )
]

-- The rows come out ordered.
pub order_rows-IsOrdered : (rows : List Joined) → IsOrdered (order_rows rows)
unfolding order_rows
order_rows-IsOrdered [] = tt
order_rows-IsOrdered (x ∷ xs) = insert_row-IsOrdered x (order_rows xs) (order_rows-IsOrdered xs)

insert_row-perm : (x : Joined) (xs : List Joined) → Perm (insert_row x xs) (x ∷ xs)
unfolding insert_row
insert_row-perm x [] = Perm.refl (x ∷ [])
insert_row-perm x (y ∷ ys) = elim (Bool-cases (in_order x y)) [
  | inl first ↦ rw first (Perm.refl (x ∷ y ∷ ys))
  | inr later ↦ rw later (Perm.trans (Perm.cons y (insert_row-perm x ys)) (Perm.swap x y ys))
]

-- Ordering loses and adds no row.
pub order_rows-perm : (rows : List Joined) → Perm (order_rows rows) rows
unfolding order_rows
order_rows-perm [] = Perm.refl []
order_rows-perm (x ∷ xs) =
    Perm.trans (insert_row-perm x (order_rows xs)) (Perm.cons x (order_rows-perm xs))

any-insert_row :
    (test : Joined → Bool) (x : Joined) (xs : List Joined)
    → any test (insert_row x xs) ≡ (test x || any test xs)
unfolding insert_row
any-insert_row test x [] = refl
any-insert_row test x (y ∷ ys) = ground (arith, any-insert_row test x ys)

pub any-order_rows :
    (test : Joined → Bool) (rows : List Joined) → any test (order_rows rows) ≡ any test rows
unfolding order_rows
any-order_rows test [] = refl
any-order_rows test (x ∷ xs) =
    ground (arith, any-insert_row test x (order_rows xs), any-order_rows test xs)

pub order_rows-All :
    (P : Joined → Type 0) (rows : List Joined) → All P rows → All P (order_rows rows)
unfolding order_rows
order_rows-All P [] h = tt
order_rows-All P (x ∷ xs) h = insert_row-All P x (order_rows xs) h.0 (order_rows-All P xs h.1)
