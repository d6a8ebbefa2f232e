-- ===== src/Base/SortedSet.antt =====
-- Python's `sorted(set(xs))`: the values without repetition, in increasing order.
use Prim.Native.Nat.{ℕ, zero, suc, ◌+◌, ◌-◌, ◌≤◌, ◌<◌}
use mathlib.Core.Path.{◌≡◌, refl, ap, ◌∙◌}
use mathlib.Core.Bool.{Bool, false, ◌||◌, ◌&&◌}
use mathlib.Core.List.{List, [], ◌∷◌, map}
use native.Mathlib.Omega.{arith}
use shard_net.Base.Tests.{ltb, leb, ◌==◌, nat_eq, if◌then◌else◌}
use shard_net.Base.Lists.{length, any, All}
use shard_net.Base.Int.{pos, ltb_ℤ}

module _ {ℓ} {A : Type ℓ} (lt : A → A → Bool) where
  unfoldable pub insert : A → List A → List A
  insert x [] = x ∷ []
  insert x (y ∷ ys) = if lt x y then x ∷ y ∷ ys else if lt y x then y ∷ insert x ys else y ∷ ys

  unfoldable pub sorted_set : List A → List A
  unfolding insert
  sorted_set [] = []
  sorted_set (x ∷ xs) = insert x (sorted_set xs)

-- Python's `k in xs`.
abbrev pub contains : ℕ → List ℕ → Bool
contains k = any (λ x. x == k)

abbrev pub range_from : ℕ → ℕ → List ℕ
range_from k zero = []
range_from k (suc n) = k ∷ range_from (suc k) n

-- Python's `range(n)`.
abbrev pub range : ℕ → List ℕ
range = range_from 0

abbrev pub IsIncreasing : List ℕ → Type 0
IsIncreasing [] = Unit
IsIncreasing (x ∷ xs) = All (λ y. x < y) xs × IsIncreasing xs

pub All-weaken_lt : {a b : ℕ} (xs : List ℕ) → a ≤ b → All (λ y. b < y) xs → All (λ y. a < y) xs
All-weaken_lt [] h hs = tt
All-weaken_lt (x ∷ xs) h hs = (omega arith, All-weaken_lt xs h hs.1)

insert-All : (P : ℕ → Type 0) (x : ℕ) (xs : List ℕ) → P x → All P xs → All P (insert ltb x xs)
unfolding insert
insert-All P x [] p h = (p, tt)
insert-All P x (y ∷ ys) p h = ground (arith, insert-All P x ys p h.1)

pub sorted_set-All : (P : ℕ → Type 0) (xs : List ℕ) → All P xs → All P (sorted_set ltb xs)
unfolding sorted_set
sorted_set-All P [] h = tt
sorted_set-All P (x ∷ xs) h = insert-All P x (sorted_set ltb xs) h.0 (sorted_set-All P xs h.1)

insert-IsIncreasing : (x : ℕ) (xs : List ℕ) → IsIncreasing xs → IsIncreasing (insert ltb x xs)
unfolding insert
insert-IsIncreasing x [] h = (tt, tt)
insert-IsIncreasing x (y ∷ ys) h = ground (
  arith,
  insert-IsIncreasing x ys h.1,
  λ (p : x < y). All-weaken_lt {a = x} {b = y} ys (omega arith) h.0,
  λ (p : y < x). insert-All (λ z. y < z) x ys p h.0,
)

pub sorted_set-IsIncreasing : (xs : List ℕ) → IsIncreasing (sorted_set ltb xs)
unfolding sorted_set
sorted_set-IsIncreasing [] = tt
sorted_set-IsIncreasing (x ∷ xs) =
    insert-IsIncreasing x (sorted_set ltb xs) (sorted_set-IsIncreasing xs)

contains-insert :
    (k x : ℕ) (xs : List ℕ) → contains k (insert ltb x xs) ≡ ((x == k) || contains k xs)
unfolding insert
contains-insert k x [] = refl
contains-insert k x (y ∷ ys) = ground (arith, contains-insert k x ys)

pub contains-sorted_set : (k : ℕ) (xs : List ℕ) → contains k (sorted_set ltb xs) ≡ contains k xs
unfolding sorted_set
contains-sorted_set k [] = refl
contains-sorted_set k (x ∷ xs) =
    ground (arith, contains-insert k x (sorted_set ltb xs), contains-sorted_set k xs)

insert_head : (x : ℕ) (xs : List ℕ) → All (λ y. x < y) xs → insert ltb x xs ≡ x ∷ xs
unfolding insert
insert_head x [] h = refl
insert_head x (y ∷ ys) h = ground arith

-- An increasing list is its own sorted set.
pub sorted_set_of_IsIncreasing : (xs : List ℕ) → IsIncreasing xs → sorted_set ltb xs ≡ xs
unfolding sorted_set
sorted_set_of_IsIncreasing [] h = refl
sorted_set_of_IsIncreasing (x ∷ xs) h =
    ground (arith, sorted_set_of_IsIncreasing xs h.1, insert_head x xs h.0)

contains_above : (x : ℕ) (xs : List ℕ) {b : ℕ} → x ≤ b → All (λ y. b < y) xs → contains x xs ≡ false
contains_above x [] h hs = refl
contains_above x (y ∷ ys) h hs = ground (arith, contains_above x ys h hs.1)

-- An increasing list is determined by its members.
pub increasing_ext :
    (xs ys : List ℕ)
    → IsIncreasing xs
    → IsIncreasing ys
    → ((k : ℕ) → contains k xs ≡ contains k ys)
    → xs ≡ ys
increasing_ext [] [] hx hy e = refl
increasing_ext [] (y ∷ ys) hx hy e = absurd (ground (arith, e y))
increasing_ext (x ∷ xs) [] hx hy e = absurd (ground (arith, e x))
increasing_ext (x ∷ xs) (y ∷ ys) hx hy e =
    ground (arith, heads, increasing_ext xs ys hx.1 hy.1 tails)
  where
    heads : x ≡ y
    heads = ground (
      arith,
      e x,
      e y,
      λ (p : x < y). contains_above x ys {b = y} (omega arith) hy.0,
      λ (p : y < x). contains_above y xs {b = x} (omega arith) hx.0,
    )

    tails : (k : ℕ) → contains k xs ≡ contains k ys
    tails k = ground (
      arith,
      heads,
      e k,
      contains_above x xs {b = x} (omega arith) hx.0,
      contains_above y ys {b = y} (omega arith) hy.0,
    )

range_from-IsIncreasing :
    (k n b : ℕ) → b < k → All (λ y. b < y) (range_from k n) × IsIncreasing (range_from k n)
range_from-IsIncreasing k zero b h = (tt, tt)
range_from-IsIncreasing k (suc n) b h = (
  (h, (range_from-IsIncreasing (suc k) n b (omega arith)).0),
  range_from-IsIncreasing (suc k) n k (omega arith),
)

pub range-IsIncreasing : (n : ℕ) → IsIncreasing (range n)
range-IsIncreasing zero = tt
range-IsIncreasing (suc n) = range_from-IsIncreasing 1 n 0 (omega arith)

pub length-range_from : (k n : ℕ) → length (range_from k n) ≡ n
length-range_from k zero = refl
length-range_from k (suc n) = ap suc (length-range_from (suc k) n)

contains-range_from : (i k n : ℕ) → contains i (range_from k n) ≡ (leb k i && ltb i (k + n))
contains-range_from i k zero = ground arith
contains-range_from i k (suc n) = ground (arith, contains-range_from i (suc k) n)

pub contains-range : (i n : ℕ) → contains i (range n) ≡ ltb i n
contains-range i n = contains-range_from i 0 n ∙ ground arith

-- Between two bounds there is room for no more increasing numbers than their difference.
pub increasing_room :
    (k n : ℕ) (xs : List ℕ)
    → IsIncreasing xs
    → All (λ x. k ≤ x) xs
    → All (λ x. x < k + n) xs
    → length xs ≤ n
increasing_room k n [] inc lo hi = omega arith
increasing_room k zero (x ∷ xs) inc lo hi = absurd (omega arith)
increasing_room k (suc n) (x ∷ xs) inc lo hi =
    omega (arith, increasing_room (suc k) n xs inc.1 (raise_lo xs (lo.0) inc.0) (shift_hi xs hi.1))
  where
    raise_lo : (ys : List ℕ) → k ≤ x → All (λ y. x < y) ys → All (λ y. suc k ≤ y) ys
    raise_lo [] h a = tt
    raise_lo (y ∷ ys) h a = (omega arith, raise_lo ys h a.1)

    shift_hi : (ys : List ℕ) → All (λ y. y < k + suc n) ys → All (λ y. y < suc k + n) ys
    shift_hi [] a = tt
    shift_hi (y ∷ ys) a = (omega arith, shift_hi ys a.1)

-- Where the room is used up, nothing is left out.
pub increasing_full :
    (k n : ℕ) (xs : List ℕ)
    → IsIncreasing xs
    → All (λ x. k ≤ x) xs
    → All (λ x. x < k + n) xs
    → length xs ≡ n
    → xs ≡ range_from k n
increasing_full k zero [] inc lo hi e = refl
increasing_full k zero (x ∷ xs) inc lo hi e = absurd (omega arith)
increasing_full k (suc n) [] inc lo hi e = absurd (omega arith)
increasing_full k (suc n) (x ∷ xs) inc lo hi e = ground (
  arith,
  first,
  increasing_full (suc k) n xs inc.1 (raise_lo xs inc.0) (shift_hi xs hi.1) (omega arith),
)
  where
    at_least : (ys : List ℕ) → All (λ y. x < y) ys → All (λ y. x ≤ y) ys
    at_least [] a = tt
    at_least (y ∷ ys) a = (omega arith, at_least ys a.1)

    below : (ys : List ℕ) → All (λ y. y < k + suc n) ys → All (λ y. y < x + (k + suc n - x)) ys
    below [] a = tt
    below (y ∷ ys) a = (omega arith, below ys a.1)

    first : x ≡ k
    first = omega (
      arith,
      increasing_room x (k + suc n - x) (x ∷ xs) inc (omega arith, at_least xs inc.0)
          (below (x ∷ xs) hi),
    )

    raise_lo : (ys : List ℕ) → All (λ y. x < y) ys → All (λ y. suc k ≤ y) ys
    raise_lo [] a = tt
    raise_lo (y ∷ ys) a = (omega arith, raise_lo ys a.1)

    shift_hi : (ys : List ℕ) → All (λ y. y < k + suc n) ys → All (λ y. y < suc k + n) ys
    shift_hi [] a = tt
    shift_hi (y ∷ ys) a = (omega arith, shift_hi ys a.1)

-- The same for integers that are naturals.
insert-map_pos :
    (x : ℕ) (xs : List ℕ) → insert ltb_ℤ (pos x) (map pos xs) ≡ map pos (insert ltb x xs)
unfolding insert
insert-map_pos x [] = refl
insert-map_pos x (y ∷ ys) = ground (arith, insert-map_pos x ys)

pub sorted_set-map_pos : (xs : List ℕ) → sorted_set ltb_ℤ (map pos xs) ≡ map pos (sorted_set ltb xs)
unfolding sorted_set
sorted_set-map_pos [] = refl
sorted_set-map_pos (x ∷ xs) = rw (sorted_set-map_pos xs) (insert-map_pos x (sorted_set ltb xs))
