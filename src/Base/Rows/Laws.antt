-- ===== src/Base/Rows/Laws.antt =====
-- What the statements on a table keep and what they find.
use shard_net.Base.Tests.{if◌then◌else◌, Bool-cases}
use shard_net.Base.Lists.{any, All, count}
use shard_net.Base.Rows.{find_row, select_where, update_where, upsert}
use Prim.Native.Nat.{◌<◌}
use mathlib.Core.Path.{◌≡◌, refl, ◌∙◌, subst}
use mathlib.Core.Logic.{inl, inr}
use mathlib.Core.Bool.{Bool, true, false, ◌||◌, ◌&&◌}
use mathlib.Core.List.{List, [], ◌∷◌, ◌++◌}
use mathlib.Core.Option.{none, some}
use native.Mathlib.Omega.{arith}

-- No two rows have one key: `same` compares keys.
abbrev pub UniqueBy {ℓ} : {R : Type ℓ} → (R → R → Bool) → List R → Type 0
UniqueBy same [] = Unit
UniqueBy same (r ∷ rs) = (any (same r) rs ≡ false) × UniqueBy same rs

module _ {ℓ} {R : Type ℓ} where
  pub any-append :
      (test : R → Bool) (xs ys : List R) → any test (xs ++ ys) ≡ (any test xs || any test ys)
  any-append test [] ys = refl
  any-append test (x ∷ xs) ys = ground (arith, any-append test xs ys)

  pub any-update_where :
      (test at : R → Bool) (set : R → R) (rs : List R)
      → ((r : R) → test (set r) ≡ test r)
      → any test (update_where at set rs) ≡ any test rs
  any-update_where test at set [] h = refl
  any-update_where test at set (r ∷ rs) h = ground (arith, any-update_where test at set rs h, h r)

  -- An upsert adds the new row's key and takes none away.
  pub any-upsert :
      (test at : R → Bool) (set : R → R) (new : R) (rs : List R)
      → ((r : R) → test (set r) ≡ test r)
      → ((r : R) → at r ≡ true → test r ≡ test new)
      → any test (upsert at set new rs) ≡ (test new || any test rs)
  any-upsert test at set new rs h same = elim (Bool-cases (any at rs)) [
    | inl old ↦ ground (arith, any-update_where test at set rs h, found rs old)
    | inr new_key ↦ ground (arith, any-append test rs (new ∷ []))
  ]
    where
      found : (qs : List R) → any at qs ≡ true → test new ≡ true → any test qs ≡ true
      found [] e t = cc
      found (q ∷ qs) e t = ground (arith, same q, found qs)

  pub any-update_where_hit :
      (test at : R → Bool) (set : R → R) (rs : List R)
      → ((r : R) → at r ≡ true → test (set r) ≡ true)
      → any at rs ≡ true
      → any test (update_where at set rs) ≡ true
  any-update_where_hit test at set [] h e = cc
  any-update_where_hit test at set (r ∷ rs) h e =
      ground (arith, any-update_where_hit test at set rs h, h r)

  -- After an upsert there is a row as written.
  pub any-upsert_hit :
      (test at : R → Bool) (set : R → R) (new : R) (rs : List R)
      → ((r : R) → at r ≡ true → test (set r) ≡ true)
      → test new ≡ true
      → any test (upsert at set new rs) ≡ true
  any-upsert_hit test at set new rs h e = elim (Bool-cases (any at rs)) [
    | inl old ↦ rw old (any-update_where_hit test at set rs h old)
    | inr new_key ↦ ground (arith, any-append test rs (new ∷ []))
  ]

  pub All-append {κ} : (P : R → Type κ) (xs ys : List R) → All P xs → All P ys → All P (xs ++ ys)
  All-append P [] ys hx hy = hy
  All-append P (x ∷ xs) ys hx hy = (hx.0, All-append P xs ys hx.1 hy)

  pub All-imp {κ μ} :
      (P : R → Type κ) (Q : R → Type μ) (xs : List R) → ((r : R) → P r → Q r) → All P xs → All Q xs
  All-imp P Q [] h hx = tt
  All-imp P Q (x ∷ xs) h hx = (h x hx.0, All-imp P Q xs h hx.1)

  -- A test on the rows of a list, and a property that holds where the test does.
  pub All-select_where {κ} :
      (P : R → Type κ) (at : R → Bool) (rs : List R) → All P rs → All P (select_where at rs)
  All-select_where P at [] h = tt
  All-select_where P at (r ∷ rs) h = elim (Bool-cases (at r)) [
    | inl y ↦ rw y (h.0, All-select_where P at rs h.1)
    | inr n ↦ rw n (All-select_where P at rs h.1)
  ]

  pub select_where-All {κ μ} :
      (P : R → Type κ) (Q : R → Type μ) (at : R → Bool) (rs : List R)
      → ((r : R) → at r ≡ true → P r → Q r)
      → All P rs
      → All Q (select_where at rs)
  select_where-All P Q at [] h hs = tt
  select_where-All P Q at (r ∷ rs) h hs = elim (Bool-cases (at r)) [
    | inl y ↦ rw y (h r y hs.0, select_where-All P Q at rs h hs.1)
    | inr n ↦ rw n (select_where-All P Q at rs h hs.1)
  ]

  pub selected : (at : R → Bool) (rs : List R) → All (λ r. at r ≡ true) (select_where at rs)
  selected at [] = tt
  selected at (r ∷ rs) = elim (Bool-cases (at r)) [
    | inl y ↦ rw y (y, selected at rs)
    | inr n ↦ rw n (selected at rs)
  ]

  pub All-update_where {κ} :
      (P : R → Type κ) (at : R → Bool) (set : R → R) (rs : List R)
      → ((r : R) → at r ≡ true → P r → P (set r))
      → All P rs
      → All P (update_where at set rs)
  All-update_where P at set [] h hs = tt
  All-update_where P at set (r ∷ rs) h hs = elim (Bool-cases (at r)) [
    | inl y ↦ rw y (h r y hs.0, All-update_where P at set rs h hs.1)
    | inr n ↦ rw n (hs.0, All-update_where P at set rs h hs.1)
  ]

  pub All-upsert {κ} :
      (P : R → Type κ) (at : R → Bool) (set : R → R) (new : R) (rs : List R)
      → ((r : R) → at r ≡ true → P r → P (set r))
      → P new
      → All P rs
      → All P (upsert at set new rs)
  All-upsert P at set new rs h p hs = elim (Bool-cases (any at rs)) [
    | inl y ↦ rw y (All-update_where P at set rs h hs)
    | inr n ↦ rw n (All-append P rs (new ∷ []) hs (p, tt))
  ]

  pub any-select_where :
      (test at : R → Bool) (rs : List R)
      → any test (select_where at rs) ≡ any (λ r. at r && test r) rs
  any-select_where test at [] = refl
  any-select_where test at (r ∷ rs) = ground (arith, any-select_where test at rs)

  any-select_where-false :
      (test at : R → Bool) (rs : List R)
      → any test rs ≡ false
      → any test (select_where at rs) ≡ false
  any-select_where-false test at [] h = refl
  any-select_where-false test at (r ∷ rs) h = ground (arith, any-select_where-false test at rs)

  pub select_where-UniqueBy :
      (same : R → R → Bool) (at : R → Bool) (rs : List R)
      → UniqueBy same rs
      → UniqueBy same (select_where at rs)
  select_where-UniqueBy same at [] u = tt
  select_where-UniqueBy same at (r ∷ rs) u = elim (Bool-cases (at r)) [
    | inl y ↦ rw y (any-select_where-false (same r) at rs u.0, select_where-UniqueBy same at rs u.1)
    | inr n ↦ rw n (select_where-UniqueBy same at rs u.1)
  ]

  -- An update that keeps the keys keeps them unique.
  pub update_where-UniqueBy :
      (same : R → R → Bool) (at : R → Bool) (set : R → R) (rs : List R)
      → ((r q : R) → same r (set q) ≡ same r q)
      → ((r q : R) → same (set r) q ≡ same r q)
      → UniqueBy same rs
      → UniqueBy same (update_where at set rs)
  update_where-UniqueBy same at set [] right left u = tt
  update_where-UniqueBy same at set (r ∷ rs) right left u =
      let rest = update_where-UniqueBy same at set rs right left u.1 in
      elim (Bool-cases (at r)) [
        | inl y ↦ rw y (
          ground
              (arith, any-update_where (same (set r)) at set rs (right (set r)), head_key rs, u.0),
          rest,
        )
        | inr n ↦ rw n (ground (arith, any-update_where (same r) at set rs (right r), u.0), rest)
      ]
    where
      head_key : (qs : List R) → any (same (set r)) qs ≡ any (same r) qs
      head_key [] = refl
      head_key (q ∷ qs) = ground (arith, head_key qs, left r q)

  append-UniqueBy :
      (same : R → R → Bool) (new : R) (rs : List R)
      → All (λ r. same r new ≡ false) rs
      → UniqueBy same rs
      → UniqueBy same (rs ++ new ∷ [])
  append-UniqueBy same new [] h u = (refl, tt)
  append-UniqueBy same new (r ∷ rs) h u = (
    ground (arith, any-append (same r) rs (new ∷ []), h.0, u.0),
    append-UniqueBy same new rs h.1 u.1,
  )

  any-false-All :
      (test : R → Bool) (rs : List R) → any test rs ≡ false → All (λ r. test r ≡ false) rs
  any-false-All test [] h = tt
  any-false-All test (r ∷ rs) h = (ground arith, any-false-All test rs (ground arith))

  -- So does a new row whose key no row has.
  pub append_new-UniqueBy :
      (same : R → R → Bool) (at : R → Bool) (new : R) (rs : List R)
      → ((r : R) → same r new ≡ at r)
      → any at rs ≡ false
      → UniqueBy same rs
      → UniqueBy same (rs ++ new ∷ [])
  append_new-UniqueBy same at new rs key n = append-UniqueBy same new rs (
      All-imp (λ r. at r ≡ false) (λ r. same r new ≡ false) rs (λ r e. key r ∙ e)
        (any-false-All at rs n))

  -- So does an upsert, if its test is for the new row's key.
  pub upsert-UniqueBy :
      (same : R → R → Bool) (at : R → Bool) (set : R → R) (new : R) (rs : List R)
      → ((r q : R) → same r (set q) ≡ same r q)
      → ((r q : R) → same (set r) q ≡ same r q)
      → ((r : R) → same r new ≡ at r)
      → UniqueBy same rs
      → UniqueBy same (upsert at set new rs)
  upsert-UniqueBy same at set new rs right left key u = elim (Bool-cases (any at rs)) [
    | inl y ↦ rw y (update_where-UniqueBy same at set rs right left u)
    | inr n ↦ rw n (append_new-UniqueBy same at new rs key n u)
  ]

  pub find_row-update_where :
      (test at : R → Bool) (set : R → R) (rs : List R) {r : R}
      → ((q : R) → test (set q) ≡ test q)
      → find_row test rs ≡ some r
      → find_row test (update_where at set rs) ≡ some (if at r then set r else r)
  find_row-update_where test at set [] h e = cc
  find_row-update_where test at set (q ∷ rs) {r} h e =
      ground (arith, h q, find_row-update_where test at set rs {r = r} h)

  pub find_row-append :
      (test : R → Bool) (xs ys : List R) {r : R}
      → find_row test xs ≡ some r
      → find_row test (xs ++ ys) ≡ some r
  find_row-append test [] ys e = cc
  find_row-append test (x ∷ xs) ys {r} e = ground (arith, find_row-append test xs ys {r = r})

  pub find_row-append_new :
      (test : R → Bool) (xs ys : List R)
      → find_row test xs ≡ none
      → find_row test (xs ++ ys) ≡ find_row test ys
  find_row-append_new test [] ys e = refl
  find_row-append_new test (x ∷ xs) ys e = ground (arith, find_row-append_new test xs ys)

  pub find_row-holds :
      (test : R → Bool) (rs : List R) {r : R} → find_row test rs ≡ some r → test r ≡ true
  find_row-holds test [] e = cc
  find_row-holds test (q ∷ rs) {r} e = ground (arith, find_row-holds test rs {r = r})

  pub find_row-any :
      (test : R → Bool) (rs : List R)
      → any test rs ≡ elim (find_row test rs) [ none ↦ false | some _ ↦ true ]
  find_row-any test [] = refl
  find_row-any test (q ∷ rs) = ground (arith, find_row-any test rs)

  pub find_row-All {κ} :
      (P : R → Type κ) (test : R → Bool) (rs : List R) {r : R}
      → All P rs
      → find_row test rs ≡ some r
      → P r
  find_row-All P test [] h e = cc
  find_row-All P test (q ∷ rs) h e = elim (Bool-cases (test q)) [
    | inl y ↦ subst P (ground arith) h.0
    | inr n ↦ find_row-All P test rs h.1 (ground arith)
  ]

  -- An update at no row changes nothing, and counts nothing.
  pub update_where_none :
      (at : R → Bool) (set : R → R) (rs : List R) → any at rs ≡ false → update_where at set rs ≡ rs
  update_where_none at set [] h = refl
  update_where_none at set (r ∷ rs) h = ground (arith, update_where_none at set rs)

  pub count-eq-zero : (at : R → Bool) (rs : List R) → any at rs ≡ false → count at rs ≡ 0
  count-eq-zero at [] h = refl
  count-eq-zero at (r ∷ rs) h = ground (arith, count-eq-zero at rs)

  pub count_pos : (at : R → Bool) (rs : List R) → any at rs ≡ true → 0 < count at rs
  count_pos at [] h = absurd (cc)
  count_pos at (r ∷ rs) h = ground (arith, count_pos at rs)
