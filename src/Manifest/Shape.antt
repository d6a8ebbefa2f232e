-- ===== src/Manifest/Shape.antt =====
-- What a validated manifest is, and the sizes of its chunks (src/shardnet/client/core/models.py).
use Prim.Native.Nat.{min}
use native.Mathlib.Nat.{mul-add-mod_self_left, mod-eq_of_lt, mod_self}
use shard_net.Base.{
  ℕ, pos, String, true, not, List, [], ◌∷◌, map, ◌+◌, ◌-◌, ◌*◌, ◌%◌, ◌≤◌, ◌<◌, ◌==◌, ◌≡◌, ◌↔◌, refl,
  ap, ◌∙◌, nat_eq, text_eq, list_eq, ltb, if◌then◌else◌, length, arith, Bool-cases, inl, inr,
  eq_iff, list_beq_iff,
}
use shard_net.Errors.{ok}
use shard_net.Platform.{Platform, is_hash}
use shard_net.Manifest.{
  FileManifest, ManifestFields, text_within, has_chunk_shape, validate, model_dump, same_manifest,
  size_of_chunk, chunk_size_for_index,
}

-- The chunks cover the file, and the last one is not empty.
pub record HasShape (m : FileManifest) : Type 0 where
  pub chunk_pos : 0 < m.chunk_size_bytes
  pub total_pos : 0 < m.total_chunks
  pub hashes : length m.chunk_sha256 ≡ m.total_chunks
  pub least : m.chunk_size_bytes * (m.total_chunks - 1) < m.file_size_bytes
  pub most : m.file_size_bytes ≤ m.chunk_size_bytes * m.total_chunks

-- A manifest as the constructor leaves it.
pub record IsManifest (platform : Platform) (m : FileManifest) : Type 0 where
  pub info_hash : is_hash m.info_hash ≡ true
  pub info_hash_lower : platform.lower m.info_hash ≡ m.info_hash
  pub file_name : text_within 1 256 m.file_name ≡ true
  pub file_sha256 : is_hash m.file_sha256 ≡ true
  pub file_sha256_lower : platform.lower m.file_sha256 ≡ m.file_sha256
  pub chunk_sha256_lower : map platform.lower m.chunk_sha256 ≡ m.chunk_sha256
  pub shape : HasShape m

pub map-lower_idem :
    (platform : Platform) (hs : List String)
    → map platform.lower (map platform.lower hs) ≡ map platform.lower hs
map-lower_idem platform [] = refl
map-lower_idem platform (h ∷ hs) = cc (platform.lower-lower h, map-lower_idem platform hs)

-- What the constructor accepts is a manifest in this sense: digests in lower case, and a shape that
-- covers the file.
pub validate-IsManifest :
    (platform : Platform) (r : ManifestFields) {m : FileManifest}
    → validate platform r ≡ ok m
    → IsManifest platform m
unfolding validate has_chunk_shape
validate-IsManifest platform r {m} e = ground (
  arith,
  platform.lower-is_hash r.info_hash,
  platform.lower-is_hash r.file_sha256,
  platform.lower-lower r.info_hash,
  platform.lower-lower r.file_sha256,
  map-lower_idem platform r.chunk_sha256,
)

-- A manifest read back from its own text is the same manifest.
pub validate-model_dump :
    (platform : Platform) (m : FileManifest)
    → IsManifest platform m
    → validate platform (model_dump m) ≡ ok m
unfolding validate has_chunk_shape
validate-model_dump platform m h =
    let size_pos : 0 < m.file_size_bytes = omega (arith, h.shape.least) in ground arith

pub same_manifest_iff : (m n : FileManifest) → (same_manifest m n ≡ true) ↔ (m ≡ n)
unfolding same_manifest
same_manifest_iff m n = ground (
  arith,
  eq_iff m.info_hash n.info_hash,
  eq_iff m.file_name n.file_name,
  eq_iff m.file_sha256 n.file_sha256,
  list_beq_iff m.chunk_sha256 n.chunk_sha256,
)

remainder_of_last :
    (c k r : ℕ) → 0 < r → r ≤ c → (if not ((c * k + r) % c == 0) then (c * k + r) % c else c) ≡ r
remainder_of_last c k r p q =
    ground (
      arith,
      mul-add-mod_self_left c k r,
      mod_self c,
      λ (h : r < c). mod-eq_of_lt {n = r} {m = c} h,
    )

inner_chunk : (c k i size : ℕ) → i < k → c * k < size → c ≤ size - c * i
inner_chunk c k i size p q =
    omega (arith, ap (λ (t : ℕ). c * t) (let e : k ≡ i + 1 + (k - (i + 1)) = omega arith in e))

-- Every chunk ends where the next one begins, and the last one where the file ends: a chunk has the
-- chunk size or what is left of the file behind its start, whichever is less.
pub chunk_size_for_index_lem :
    (m : FileManifest) (i : ℕ)
    → HasShape m
    → i < m.total_chunks
    → chunk_size_for_index m (pos i)
      ≡ ok (min m.chunk_size_bytes (m.file_size_bytes - m.chunk_size_bytes * i))
unfolding chunk_size_for_index size_of_chunk
chunk_size_for_index_lem m i h p = elim (Bool-cases (ltb i (m.total_chunks - 1))) [
  | inl inner ↦
      let room : c ≤ size - c * i =
        inner_chunk c (m.total_chunks - 1) i size (ground arith) h.least in
      ground arith
  | inr last ↦
      let at : i ≡ m.total_chunks - 1 = ground arith in
      let r : ℕ = size - c * i in
      let start : c * i ≡ c * (m.total_chunks - 1) = ap (λ (t : ℕ). c * t) at in
      let end : c * m.total_chunks ≡ c * i + c =
        ap (λ (t : ℕ). c * t) (let e : m.total_chunks ≡ i + 1 = omega arith in e) ∙ omega arith in
      let whole : size ≡ c * i + r = omega arith in
      let tail = remainder_of_last c i r (omega arith) (omega arith) in ground arith
]
  where
    c : ℕ
    c = m.chunk_size_bytes

    size : ℕ
    size = m.file_size_bytes
