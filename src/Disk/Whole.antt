-- ===== src/Disk/Whole.antt =====
-- A file and its slices (src/shardnet/client/core/manifest.py): bytes of one length are equal when their
-- slices are.
use shard_net.Base.{
  ℕ, zero, suc, [], ◌∷◌, ◌++◌, ◌≡◌, refl, ap, ◌∙◌, sym, ◌<◌, ◌≤◌, ◌+◌, ◌*◌, length, take, drop,
  arith,
}
use shard_net.Platform.{Bytes}
use shard_net.Disk.Slices.{take_all}
use shard_net.Manifest.Chunking.{slice}

take_nil : (c : ℕ) → take {A = ℕ} c [] ≡ []
take_nil zero = refl
take_nil (suc c) = refl

take_more : (a c : ℕ) (xs : Bytes) → take (a + c) xs ≡ take a xs ++ take c (drop a xs)
take_more zero c xs = ap (λ (n : ℕ). take n xs) (let e : 0 + c ≡ c = omega arith in e)
take_more (suc a) c [] = take_nil (suc a + c) ∙ sym (take_nil c)
take_more (suc a) c (x ∷ xs) =
    let e : suc a + c ≡ suc (a + c) = omega arith in
    ap (λ (n : ℕ). take n (x ∷ xs)) e ∙ ap (λ (l : Bytes). x ∷ l) (take_more a c xs)

module _ (c : ℕ) (xs ys : Bytes) where
  same_start :
      (n : ℕ) → ((k : ℕ) → k < n → slice c xs k ≡ slice c ys k) → take (c * n) xs ≡ take (c * n) ys
  same_start zero h = let e : c * 0 ≡ 0 = omega arith in rw e refl
  same_start (suc n) h =
      let e : c * suc n ≡ c * n + c = omega arith in
      rw (e, take_more (c * n) c xs, take_more (c * n) c ys)
        (ap (λ (l : Bytes). l ++ slice c xs n) (same_start n (λ k p. h k (omega (arith, p))))
          ∙ ap (λ (l : Bytes). take (c * n) ys ++ l) (h n (omega arith)))

  pub same_slices :
      (n : ℕ)
      → length xs ≤ c * n
      → length xs ≡ length ys
      → ((k : ℕ) → k < n → slice c xs k ≡ slice c ys k)
      → xs ≡ ys
  same_slices n all same h =
      sym (take_all (c * n) xs all)
      ∙ same_start n h
      ∙ take_all (c * n) ys (omega (arith, all, same))
