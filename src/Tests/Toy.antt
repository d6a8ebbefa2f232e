-- ===== src/Tests/Toy.antt =====
-- A digest that can be computed by hand, and a small file with its manifest: test data for the modules
-- that hash.
use shard_net.Base.{
  zero, suc, some, ◌<◌, arith, get_elem?, ℕ, String, Bool, true, false, [], ◌∷◌, ◌≡◌, refl, ◌+◌,
  ◌%◌, ◌==◌, nat_eq,
}
use shard_net.Errors.{ok}
use shard_net.Platform.{Platform, Bytes, is_hash}
use shard_net.Manifest.{FileManifest, validate, model_dump, has_chunk_shape}
use shard_net.Manifest.Chunking.{slice, Describes}
use shard_net.Manifest.Shape.{IsManifest, validate-IsManifest}

abbrev pub even_hash : String
even_hash = "0000000000000000000000000000000000000000000000000000000000000000"

abbrev pub odd_hash : String
odd_hash = "1111111111111111111111111111111111111111111111111111111111111111"

abbrev total : Bytes → ℕ
total [] = 0
total (b ∷ bs) = b + total bs

abbrev parity_hash : Bool → String
parity_hash true = even_hash
parity_hash false = odd_hash

pub parity_hash-is_hash : (even : Bool) → is_hash (parity_hash even) ≡ true
unfolding is_hash
parity_hash-is_hash true = refl
parity_hash-is_hash false = refl

abbrev pub toy : Platform
toy = record {
  sha256 = λ data_bytes. parity_hash (total data_bytes % 2 == 0);
  lower = λ s. s;
  base_name = λ path. "tune.bin";
  json_bytes = λ value. [];
  sha256-is_hash = λ data_bytes. parity_hash-is_hash (total data_bytes % 2 == 0);
  lower-sha256 = λ data_bytes. refl;
  lower-lower = λ s. refl;
  lower-is_hash = λ s e. e;
}

abbrev pub tune_bytes : Bytes
tune_bytes = 1 ∷ 2 ∷ 3 ∷ 4 ∷ 5 ∷ []

-- The manifest of `tune_bytes` in chunks of 2.
abbrev pub tune : FileManifest
tune = record {
  info_hash = even_hash;
  file_name = "tune.bin";
  file_size_bytes = 5;
  chunk_size_bytes = 2;
  total_chunks = 3;
  file_sha256 = odd_hash;
  chunk_sha256 = odd_hash ∷ odd_hash ∷ odd_hash ∷ [];
}

pub tune_validates : validate toy (model_dump tune) ≡ ok tune
unfolding validate has_chunk_shape is_hash
tune_validates = refl

pub tune-IsManifest : IsManifest toy tune
tune-IsManifest = validate-IsManifest toy (model_dump tune) tune_validates

pub tune-Describes : Describes toy tune_bytes tune
tune-Describes = record { size = refl; whole = refl; piece = pieces }
  where
    pieces :
        (i : ℕ) → i < 3 → get_elem? tune.chunk_sha256 i ≡ some (toy.sha256 (slice 2 tune_bytes i))
    pieces zero p = refl
    pieces (suc zero) p = refl
    pieces (suc (suc zero)) p = refl
    pieces (suc (suc (suc i))) p = absurd (omega arith)
