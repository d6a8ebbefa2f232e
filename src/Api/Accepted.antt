-- ===== src/Api/Accepted.antt =====
-- What `AnnounceFileRequest` of src/shardnet/tracker/schemas.py accepts, and that what a client sends is
-- accepted again as it is.
use shard_net.Base.{
  ℕ, ℤ, pos, negsuc, Bool, true, false, not, List, [], ◌∷◌, map, ◌≡◌, refl, ap, ◌∙◌, sym, ◌<◌,
  length, any, all, All, arith, ltb, ltb_ℤ, text_eq, nat_eq, ◌||◌,
}
use shard_net.Base.SortedSet.{
  insert, sorted_set, sorted_set-IsIncreasing, sorted_set-All, sorted_set_of_IsIncreasing,
  sorted_set-map_pos,
}
use shard_net.Errors.{ok}
use shard_net.Platform.{Platform, is_hash}
use shard_net.Manifest.{text_within, is_outside}
use shard_net.Manifest.Shape.{map-lower_idem}
use shard_net.Tracker.Chunks.{IsChunkSet}
use shard_net.Api.Schemas.{
  AnnounceFields, AnnounceFileRequest, is_digest, normalize_chunk_hashes, validate_chunk_bounds,
  validate_announce, dump_announce,
}

abbrev is_inside : ℕ → ℤ → Bool
is_inside total chunk = not (is_outside total chunk)

-- A chunk list of the wire that is a set of chunks of the file.
pub record IsChunkList (total : ℕ) (available_chunks : List ℤ) : Type 0 where
  pub chunks : List ℕ
  pub naturals : available_chunks ≡ map pos chunks
  pub chunk_set : IsChunkSet total chunks

-- A request as pydantic leaves it: digests in lower case, one for each chunk, and the chunks that are
-- there in order, without repetition, and in range.
pub record IsRequest (platform : Platform) (r : AnnounceFileRequest) : Type 0 where
  pub peer_id : text_within 3 128 r.peer_id ≡ true
  pub info_hash : is_hash r.info_hash ≡ true
  pub info_hash_lower : platform.lower r.info_hash ≡ r.info_hash
  pub file_name : text_within 1 256 r.file_name ≡ true
  pub size_pos : 0 < r.file_size_bytes
  pub chunk_pos : 0 < r.chunk_size_bytes
  pub total_pos : 0 < r.total_chunks
  pub file_sha256 : is_hash r.file_sha256 ≡ true
  pub file_sha256_lower : platform.lower r.file_sha256 ≡ r.file_sha256
  pub chunk_sha256_lower : map platform.lower r.chunk_sha256 ≡ r.chunk_sha256
  pub digests : all is_digest r.chunk_sha256 ≡ true
  pub hashes : length r.chunk_sha256 ≡ r.total_chunks
  pub available : IsChunkList r.total_chunks r.available_chunks

ltb_ℤ_total : (x y : ℤ) → ltb_ℤ x y ≡ false → ltb_ℤ y x ≡ false → x ≡ y
ltb_ℤ_total (pos a) (pos b) h k = ap pos (ground (arith, h, k))
ltb_ℤ_total (pos a) (negsuc b) h k = absurd (ground (arith, h, k))
ltb_ℤ_total (negsuc a) (pos b) h k = absurd (ground (arith, h, k))
ltb_ℤ_total (negsuc a) (negsuc b) h k = ap negsuc (ground (arith, h, k))

module _ (test : ℤ → Bool) where
  all-insert :
      (x : ℤ) (ys : List ℤ)
      → all test (insert ltb_ℤ x ys) ≡ true
      → (test x ≡ true) × (all test ys ≡ true)
  unfolding insert
  all-insert x [] h = ground (arith, h)
  all-insert x (y ∷ ys) h = ground (
    arith,
    h,
    λ (p : ltb_ℤ x y ≡ false) (q : ltb_ℤ y x ≡ false). ap test (ltb_ℤ_total x y p q),
    λ (p : all test (insert ltb_ℤ x ys) ≡ true). all-insert x ys p,
  )

  all-sorted_set : (xs : List ℤ) → all test (sorted_set ltb_ℤ xs) ≡ true → all test xs ≡ true
  unfolding sorted_set
  all-sorted_set [] h = refl
  all-sorted_set (x ∷ xs) h =
      let (first, rest) = all-insert x (sorted_set ltb_ℤ xs) h in
      ground (arith, first, all-sorted_set xs rest)

  any-insert : (x : ℤ) (ys : List ℤ) → any test (insert ltb_ℤ x ys) ≡ (test x || any test ys)
  unfolding insert
  any-insert x [] = refl
  any-insert x (y ∷ ys) = ground (
    arith,
    any-insert x ys,
    λ (p : ltb_ℤ x y ≡ false) (q : ltb_ℤ y x ≡ false). ap test (ltb_ℤ_total x y p q),
  )

  pub any-sorted_set : (xs : List ℤ) → any test (sorted_set ltb_ℤ xs) ≡ any test xs
  unfolding sorted_set
  any-sorted_set [] = refl
  any-sorted_set (x ∷ xs) = ground (arith, any-insert x (sorted_set ltb_ℤ xs), any-sorted_set xs)

inside-naturals :
    (total : ℕ) (xs : List ℤ)
    → all (is_inside total) xs ≡ true
    → (cs : List ℕ) × (xs ≡ map pos cs) × All (λ c. c < total) cs
inside-naturals total [] h = ([], refl, tt)
inside-naturals total (pos i ∷ xs) h =
    let (cs, e, below) = inside-naturals total xs (ground (arith, h)) in
    (i ∷ cs, ap (λ (l : List ℤ). pos i ∷ l) e, (ground (arith, h), below))
inside-naturals total (negsuc i ∷ xs) h = absurd (ground (arith, h))

sorted_set-IsChunkList :
    (total : ℕ) (xs : List ℤ)
    → all (is_inside total) (sorted_set ltb_ℤ xs) ≡ true
    → IsChunkList total (sorted_set ltb_ℤ xs)
sorted_set-IsChunkList total xs h =
    let (cs, e, below) = inside-naturals total xs (all-sorted_set (is_inside total) xs h) in
    record {
      chunks = sorted_set ltb cs;
      naturals = ap (sorted_set ltb_ℤ) e ∙ sorted_set-map_pos cs;
      chunk_set = record {
        increasing = sorted_set-IsIncreasing cs;
        in_range = sorted_set-All (λ c. c < total) cs below;
      };
    }

pub validate_announce-IsRequest :
    (platform : Platform) (f : AnnounceFields) {r : AnnounceFileRequest}
    → validate_announce platform f ≡ ok r
    → IsRequest platform r
unfolding validate_announce normalize_chunk_hashes validate_chunk_bounds
validate_announce-IsRequest platform f {r} e = ground (
  arith,
  platform.lower-is_hash f.info_hash,
  platform.lower-is_hash f.file_sha256,
  platform.lower-lower f.info_hash,
  platform.lower-lower f.file_sha256,
  map-lower_idem platform f.chunk_sha256,
  sorted_set-IsChunkList r.total_chunks f.available_chunks,
)

naturals-inside :
    (total : ℕ) (cs : List ℕ) → All (λ c. c < total) cs → all (is_inside total) (map pos cs) ≡ true
naturals-inside total [] h = refl
naturals-inside total (c ∷ cs) h = ground (arith, h, naturals-inside total cs h.1)

module _ {total : ℕ} {xs : List ℤ} (h : IsChunkList total xs) where
  IsChunkList-sorted : sorted_set ltb_ℤ xs ≡ xs
  IsChunkList-sorted =
      ap (sorted_set ltb_ℤ) h.naturals
      ∙ sorted_set-map_pos h.chunks
      ∙ ap (map pos) (sorted_set_of_IsIncreasing h.chunks h.chunk_set.increasing)
      ∙ sym h.naturals

  IsChunkList-inside : all (is_inside total) xs ≡ true
  IsChunkList-inside =
      ap (all (is_inside total)) h.naturals ∙ naturals-inside total h.chunks h.chunk_set.in_range

pub validate_announce_fields :
    (platform : Platform) (r : AnnounceFileRequest)
    → IsRequest platform r
    → validate_announce platform (dump_announce r) ≡ ok r
unfolding validate_announce normalize_chunk_hashes validate_chunk_bounds
validate_announce_fields platform r h =
    ground (arith, IsChunkList-sorted h.available, IsChunkList-inside h.available)

-- What a request accepts from its fields it accepts again, unchanged, from its own JSON: the request that
-- the tracker works with is the one that the client has made.
pub validate_announce-dump_announce :
    (platform : Platform) (f : AnnounceFields) {r : AnnounceFileRequest}
    → validate_announce platform f ≡ ok r
    → (validate_announce platform (dump_announce r) ≡ ok r) × IsRequest platform r
validate_announce-dump_announce platform f {r} e =
    let h = validate_announce-IsRequest platform f e in (validate_announce_fields platform r h, h)
