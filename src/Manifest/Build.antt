-- ===== src/Manifest/Build.antt =====
-- src/shardnet/client/core/manifest.py: reading a file in chunks, and the manifest of a file. A file is
-- given by its name and its bytes, as `path.name` and its contents.
use shard_net.Base.{
  ℕ, zero, suc, ℤ, pos, negsuc, String, Option, none, some, List, [], ◌∷◌, ◌++◌, map, leb,
  if◌then◌else◌, length, take, drop,
}
use shard_net.Json.{obj, field, end, arr, strs, str, int}
use shard_net.Errors.{Result, raise, value_error}
use shard_net.Platform.{Platform, Bytes}
use shard_net.Manifest.{FileManifest, ManifestFields, validate}

-- `iter_file_chunks`: `read(chunk_size_bytes)` until it gives nothing. `rest` is the file behind the
-- handle's position; `none` means that the rounds did not suffice.
unfoldable pub iter_file_chunks : ℕ → ℕ → Bytes → Option (List Bytes)
iter_file_chunks zero chunk_size_bytes rest = none
iter_file_chunks (suc rounds) chunk_size_bytes rest = elim (take chunk_size_bytes rest) [
  | [] ↦ some []
  | b ∷ bs ↦ elim (iter_file_chunks rounds chunk_size_bytes (drop chunk_size_bytes rest)) [
    | none ↦ none
    | some chunks ↦ some ((b ∷ bs) ∷ chunks)
  ]
]

-- A round reads at least one byte, so one round more than there are bytes is enough.
abbrev pub rounds_for : Bytes → ℕ
rounds_for content = suc (length content)

-- `file_hasher.update(chunk)` for each chunk: the bytes that have been hashed.
abbrev pub hashed : List Bytes → Bytes
hashed [] = []
hashed (chunk ∷ chunks) = chunk ++ hashed chunks

unfoldable pub compute_info_hash : Platform → String → ℕ → ℕ → String → List String → String
compute_info_hash platform file_name file_size_bytes chunk_size_bytes file_sha256 chunk_sha256 =
    platform.sha256 (
      platform.json_bytes (
        obj (
          field "chunk_sha256" (arr (strs chunk_sha256)) (
            field "chunk_size_bytes" (int (pos chunk_size_bytes)) (
              field "file_name" (str file_name) (
                field "file_sha256" (str file_sha256)
                  (field "file_size_bytes" (int (pos file_size_bytes)) end)))))))

-- What the constructor gets, from the chunks that were read.
unfoldable pub manifest_fields : Platform → String → Bytes → ℕ → List Bytes → ManifestFields
unfolding compute_info_hash
manifest_fields platform file_name content chunk_size_bytes chunks =
    let file_size = length content in
    let chunk_hashes = map platform.sha256 chunks in
    let file_sha256 = platform.sha256 (hashed chunks) in
    record {
      info_hash =
          compute_info_hash platform file_name file_size chunk_size_bytes file_sha256 chunk_hashes;
      file_name = file_name;
      file_size_bytes = pos file_size;
      chunk_size_bytes = pos chunk_size_bytes;
      total_chunks = pos (length chunk_hashes);
      file_sha256 = file_sha256;
      chunk_sha256 = chunk_hashes;
    }

-- `none` means that the rounds did not suffice.
unfoldable pub build_file_manifest : Platform → String → Bytes → ℤ → Option (Result FileManifest)
build_file_manifest platform file_name content (negsuc n) = some (raise value_error)
build_file_manifest platform file_name content (pos chunk_size_bytes) =
    if leb chunk_size_bytes 0
    then some (raise value_error)
    else (if leb (length content) 0
        then some (raise value_error)
        else elim (iter_file_chunks (rounds_for content) chunk_size_bytes content) [
          | none ↦ none
          | some chunks ↦ some (
              validate platform
                (manifest_fields platform file_name content chunk_size_bytes chunks))
        ])
