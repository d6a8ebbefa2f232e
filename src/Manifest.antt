-- ===== src/Manifest.antt =====
-- `FileManifest` and `DownloadProgress` of src/shardnet/client/core/models.py.
pub mod Shape
pub mod Build
pub mod Chunking
use Prim.Native.String.{count as text_length}
use shard_net.Base.{
  ℕ, suc, ℤ, pos, negsuc, String, Bool, true, false, not, Option, none, some, List, [], map, ◌+◌,
  ◌-◌, ◌*◌, ◌%◌, ◌==◌, nat_eq, text_eq, list_eq, ltb, leb, ◌&&◌, if◌then◌else◌, length,
}
use shard_net.Errors.{Result, ok, raise, value_error, index_error, validation_error, ◌>>=◌}
use shard_net.Platform.{Platform, is_hash}

pub record FileManifest : Type 0 where
  pub info_hash : String
  pub file_name : String
  pub file_size_bytes : ℕ
  pub chunk_size_bytes : ℕ
  pub total_chunks : ℕ
  pub file_sha256 : String
  pub chunk_sha256 : List String

-- The arguments of the constructor: the ints may be any.
pub record ManifestFields : Type 0 where
  pub info_hash : String
  pub file_name : String
  pub file_size_bytes : ℤ
  pub chunk_size_bytes : ℤ
  pub total_chunks : ℤ
  pub file_sha256 : String
  pub chunk_sha256 : List String

-- `Field(gt=0)`.
abbrev pub positive : ℤ → Result ℕ
positive (pos i) = if ltb 0 i then ok i else raise validation_error
positive (negsuc i) = raise validation_error

abbrev pub accept_if {ℓ} : {A : Type ℓ} → Bool → A → Result A
accept_if test a = if test then ok a else raise validation_error

-- `Field(min_length=…, max_length=…)` on a text.
abbrev pub text_within : ℕ → ℕ → String → Bool
text_within lo hi s = leb lo (text_length s) && leb (text_length s) hi

-- `validate_chunk_shape`; `total_chunks` is positive here.
unfoldable pub has_chunk_shape : FileManifest → Bool
has_chunk_shape m =
    let max_size = m.chunk_size_bytes * m.total_chunks in
    let min_size = m.chunk_size_bytes * (m.total_chunks - 1) + 1 in
    length m.chunk_sha256 == m.total_chunks
    && (leb min_size m.file_size_bytes && leb m.file_size_bytes max_size)

-- The constructor of `FileManifest`, and `model_validate_json` on the text of these fields.
unfoldable pub validate : Platform → ManifestFields → Result FileManifest
validate platform r = do
  info_hash ← accept_if (is_hash r.info_hash) (platform.lower r.info_hash)
  file_name ← accept_if (text_within 1 256 r.file_name) r.file_name
  file_size_bytes ← positive r.file_size_bytes
  chunk_size_bytes ← positive r.chunk_size_bytes
  total_chunks ← positive r.total_chunks
  file_sha256 ← accept_if (is_hash r.file_sha256) (platform.lower r.file_sha256)
  chunk_sha256 ← accept_if (leb 1 (length r.chunk_sha256)) (map platform.lower r.chunk_sha256)
  let m : FileManifest = record {
    info_hash = info_hash;
    file_name = file_name;
    file_size_bytes = file_size_bytes;
    chunk_size_bytes = chunk_size_bytes;
    total_chunks = total_chunks;
    file_sha256 = file_sha256;
    chunk_sha256 = chunk_sha256;
  }
  accept_if (has_chunk_shape m) m

-- `model_dump_json`, as the fields that the text spells.
abbrev pub model_dump : FileManifest → ManifestFields
model_dump m = record {
  info_hash = m.info_hash;
  file_name = m.file_name;
  file_size_bytes = pos m.file_size_bytes;
  chunk_size_bytes = pos m.chunk_size_bytes;
  total_chunks = pos m.total_chunks;
  file_sha256 = m.file_sha256;
  chunk_sha256 = m.chunk_sha256;
}

-- `==` of two manifests.
unfoldable pub same_manifest : FileManifest → FileManifest → Bool
same_manifest m n =
    m.info_hash == n.info_hash
    && (m.file_name == n.file_name
        && (m.file_size_bytes == n.file_size_bytes
            && (m.chunk_size_bytes == n.chunk_size_bytes
                && (m.total_chunks == n.total_chunks
                    && (m.file_sha256 == n.file_sha256 && m.chunk_sha256 == n.chunk_sha256)))))

-- `chunk_index < 0 or chunk_index >= total`.
abbrev pub is_outside : ℕ → ℤ → Bool
is_outside total (pos i) = leb total i
is_outside total (negsuc i) = true

-- The size of chunk `i`, behind the test of the bounds.
unfoldable pub size_of_chunk : FileManifest → ℕ → ℕ
size_of_chunk m i =
    let remainder = m.file_size_bytes % m.chunk_size_bytes in
    if ltb i (m.total_chunks - 1)
    then m.chunk_size_bytes
    else (if not (remainder == 0) then remainder else m.chunk_size_bytes)

unfoldable pub chunk_size_for_index : FileManifest → ℤ → Result ℕ
chunk_size_for_index m (negsuc i) = raise index_error
chunk_size_for_index m (pos i) =
    if is_outside m.total_chunks (pos i) then raise index_error else ok (size_of_chunk m i)

-- `DownloadProgress.status`.
pub data Status : Type 0 where
  active completed : Status

pub record DownloadProgress : Type 0 where
  pub info_hash : String
  pub total_chunks : ℕ
  pub completed_chunks : List ℕ
  pub missing_chunks : List ℕ
  pub status : Status
