-- ===== src/Disk/Slices.antt =====
-- Where `truncate` and `write_at` leave the bytes of a file, chunk by chunk.
use mathlib.Core.List.{append-nil}
use shard_net.Base.{
  ℕ, zero, suc, List, [], ◌∷◌, ◌++◌, ◌≡◌, refl, ap, ◌∙◌, ◌⊎◌, inl, inr, ◌+◌, ◌-◌, ◌≤◌, length, take,
  drop, replicate, arith, length-append, length-take, length-drop, length-replicate, drop-drop,
}
use shard_net.Platform.{Bytes}
use shard_net.Disk.{truncate, write_at}

module _ {A : Type 0} where
  take-append_le : (n : ℕ) (xs ys : List A) → n ≤ length xs → take n (xs ++ ys) ≡ take n xs
  take-append_le zero xs ys h = refl
  take-append_le (suc n) [] ys h = absurd (omega arith)
  take-append_le (suc n) (x ∷ xs) ys h = ap (◌∷◌ x) (take-append_le n xs ys (omega arith))

  drop-append_le : (n : ℕ) (xs ys : List A) → n ≤ length xs → drop n (xs ++ ys) ≡ drop n xs ++ ys
  drop-append_le zero xs ys h = refl
  drop-append_le (suc n) [] ys h = absurd (omega arith)
  drop-append_le (suc n) (x ∷ xs) ys h = drop-append_le n xs ys (omega arith)

  drop-append_ge :
      (n : ℕ) (xs ys : List A) → length xs ≤ n → drop n (xs ++ ys) ≡ drop (n - length xs) ys
  drop-append_ge n [] ys h = ap (λ k. drop k ys) (omega arith)
  drop-append_ge zero (x ∷ xs) ys h = absurd (omega arith)
  drop-append_ge (suc n) (x ∷ xs) ys h =
      drop-append_ge n xs ys (omega arith) ∙ ap (λ k. drop k ys) (omega arith)

  pub take_all : (n : ℕ) (xs : List A) → length xs ≤ n → take n xs ≡ xs
  take_all zero [] h = refl
  take_all zero (x ∷ xs) h = absurd (omega arith)
  take_all (suc n) [] h = refl
  take_all (suc n) (x ∷ xs) h = ap (◌∷◌ x) (take_all n xs (omega arith))

  drop_all : (n : ℕ) (xs : List A) → length xs ≤ n → drop n xs ≡ []
  drop_all zero [] h = refl
  drop_all zero (x ∷ xs) h = absurd (omega arith)
  drop_all (suc n) [] h = refl
  drop_all (suc n) (x ∷ xs) h = drop_all n xs (omega arith)

  -- A window that ends before a cut does not see it.
  take-drop-take :
      (n k m : ℕ) (xs : List A) → k + n ≤ m → take n (drop k (take m xs)) ≡ take n (drop k xs)
  take-drop-take zero k m xs h = refl
  take-drop-take (suc n) zero zero xs h = absurd (omega arith)
  take-drop-take (suc n) zero (suc m) [] h = refl
  take-drop-take (suc n) zero (suc m) (x ∷ xs) h =
      ap (◌∷◌ x) (take-drop-take n zero m xs (omega arith))
  take-drop-take (suc n) (suc k) zero xs h = absurd (omega arith)
  take-drop-take (suc n) (suc k) (suc m) [] h = refl
  take-drop-take (suc n) (suc k) (suc m) (x ∷ xs) h = take-drop-take (suc n) k m xs (omega arith)

-- A file that has the size already is left as it is.
pub truncate_id :
    (size : ℕ) (content : Bytes) → length content ≡ size → truncate size content ≡ content
unfolding truncate
truncate_id size content e =
    let none_missing : size - length content ≡ 0 = omega arith in
    rw (none_missing, take_all size content (omega arith)) (append-nil content)

pub length-truncate : (size : ℕ) (content : Bytes) → length (truncate size content) ≡ size
unfolding truncate
length-truncate size content = omega (
  arith,
  length-append (take size content) (replicate (size - length content) 0),
  length-take size content,
  length-replicate {A = ℕ} (size - length content) 0,
)

module _ (offset : ℕ) (chunk content : Bytes)
    (inside : offset + length chunk ≤ length content) where
  -- A write inside a file replaces its bytes in place.
  write_at_inside :
      write_at offset chunk content
      ≡ take offset content ++ (chunk ++ drop (offset + length chunk) content)
  unfolding write_at
  write_at_inside =
      let no_gap : offset - length content ≡ 0 = omega arith in
      ap
        (λ k.
          take offset content ++ (replicate k 0 ++ (chunk ++ drop (offset + length chunk) content)))
        no_gap

  pub length-write_at : length (write_at offset chunk content) ≡ length content
  length-write_at = rw write_at_inside (
      omega (
        arith,
        length-append (take offset content) (chunk ++ drop (offset + length chunk) content),
        length-append chunk (drop (offset + length chunk) content),
        length-take offset content,
        length-drop (offset + length chunk) content,
      ))

  head_length : length (take offset content) ≡ offset
  head_length = omega (arith, length-take offset content)

  -- The bytes before the write.
  pub before_write :
      (n k : ℕ)
      → k + n ≤ offset
      → take n (drop k (write_at offset chunk content)) ≡ take n (drop k content)
  before_write n k h = rw write_at_inside (
      ap (take n) (drop-append_le k (take offset content) _ (omega (arith, head_length)))
      ∙ take-append_le n (drop k (take offset content)) _
          (omega (arith, length-drop k (take offset content), head_length))
      ∙ take-drop-take n k offset content h)

  -- The bytes behind it.
  pub behind_write :
      (n k : ℕ)
      → offset + length chunk ≤ k
      → take n (drop k (write_at offset chunk content)) ≡ take n (drop k content)
  behind_write n k h = rw write_at_inside (
      ap (take n) (
        drop-append_ge k (take offset content) _ (omega (arith, head_length))
        ∙ drop-append_ge (k - length (take offset content)) chunk _ (omega (arith, head_length))
        ∙ drop-drop _ (offset + length chunk) content
        ∙ ap (λ j. drop j content) (omega (arith, head_length))))

  -- The bytes of the write itself: a whole window of `n`, or the last one.
  pub at_write :
      (n : ℕ)
      → length chunk ≤ n
      → (length chunk ≡ n) ⊎ (offset + length chunk ≡ length content)
      → take n (drop offset (write_at offset chunk content)) ≡ chunk
  at_write n short full = rw write_at_inside (
      ap (take n) (
        drop-append_ge offset (take offset content) _ (omega (arith, head_length))
        ∙ ap (λ k. drop k (chunk ++ drop (offset + length chunk) content)) no_skip)
      ∙ window full)
    where
      no_skip : offset - length (take offset content) ≡ 0
      no_skip = omega (arith, head_length)

      window :
          (length chunk ≡ n) ⊎ (offset + length chunk ≡ length content)
          → take n (chunk ++ drop (offset + length chunk) content) ≡ chunk
      window (inl e) = take-append_le n chunk _ (omega arith) ∙ take_all n chunk (omega arith)
      window (inr e) =
          rw (drop_all (offset + length chunk) content (omega arith))
            (rw append-nil (take_all n chunk short))
