-- ===== src/Share/Store.antt =====
-- The table and the methods of `ShareStore` in src/shardnet/client/core/share_store.py, at the time
-- `now`. Paths are resolved by the caller. A file is there exactly when it can be read.
use shard_net.Base.{
  ℕ, ℤ, pos, negsuc, String, Bool, not, Option, none, some, List, ◌*◌, ◌==◌, text_eq, if◌then◌else◌,
  take, drop, get_elem?,
}
use shard_net.Base.Rows.{find_row, upsert}
use shard_net.Json.{str, int, field, end}
use shard_net.Errors.{Result, ok, raise, Exception, transfer, index_error, ◌>>=◌}
use shard_net.Platform.{Platform, Bytes}
use shard_net.Disk.{Disk, read_file}
use shard_net.Manifest.{
  FileManifest, ManifestFields, validate, model_dump, is_outside, chunk_size_for_index,
}
use shard_net.Manifest.Build.{build_file_manifest}

pub record ShareRow : Type 0 where
  pub info_hash : String
  pub file_path : String
  pub manifest_json : ManifestFields
  pub created_at : ℕ
  pub updated_at : ℕ

-- The catalog and the files of the peer.
pub record Shares : Type 0 where
  pub shared_files : List ShareRow
  pub disk : Disk

abbrev pub is_share : String → ShareRow → Bool
is_share info_hash r = r.info_hash == info_hash

abbrev pub shared_file_not_found : String → Exception
shared_file_not_found path = transfer (record {
  code = "shared_file_not_found";
  message = "Cannot register a file that does not exist.";
  context = field "file_path" (str path) end;
})

abbrev pub shared_file_missing : String → String → Exception
shared_file_missing file_path info_hash = transfer (record {
  code = "shared_file_missing";
  message = "Registered shared file is no longer present on disk.";
  context = field "file_path" (str file_path) (field "info_hash" (str info_hash) end);
})

abbrev pub shared_chunk_corrupt : String → ℕ → Exception
shared_chunk_corrupt info_hash i = transfer (record {
  code = "shared_chunk_corrupt";
  message = "Shared chunk hash does not match manifest metadata.";
  context = field "info_hash" (str info_hash) (field "chunk_index" (int (pos i)) end);
})

abbrev pub new_share : ℕ → String → FileManifest → ShareRow
new_share now path m = record {
  info_hash = m.info_hash;
  file_path = path;
  manifest_json = model_dump m;
  created_at = now;
  updated_at = now;
}

abbrev pub refresh_share : ShareRow → ShareRow → ShareRow
refresh_share new old = record old {
  file_path = new.file_path;
  manifest_json = new.manifest_json;
  updated_at = new.updated_at;
}

-- The row of a share that has its manifest.
unfoldable pub add_share : ℕ → String → FileManifest → Shares → Shares
add_share now path m s =
    let new = new_share now path m in
    record s { shared_files = upsert (is_share m.info_hash) (refresh_share new) new s.shared_files }

-- What follows the building of the manifest.
abbrev pub register_built :
    ℕ → String → Option (Result FileManifest) → Shares → Option (Result FileManifest) × Shares
register_built now path none s = (none, s)
register_built now path (some (raise e)) s = (some (raise e), s)
register_built now path (some (ok m)) s = (some (ok m), add_share now path m s)

-- `none` is the case of `build_file_manifest` that never occurs.
unfoldable pub register_file :
    Platform → ℕ → String → ℤ → Shares → Option (Result FileManifest) × Shares
unfolding add_share
register_file platform now path chunk_size_bytes s = elim (read_file path s.disk) [
  | none ↦ (some (raise (shared_file_not_found path)), s)
  | some content ↦
      register_built now path
        (build_file_manifest platform (platform.base_name path) content chunk_size_bytes) s
]

unfoldable pub get_manifest : Platform → String → Shares → Result (Option FileManifest)
get_manifest platform info_hash s = elim (find_row (is_share info_hash) s.shared_files) [
  | none ↦ ok none
  | some row ↦ validate platform row.manifest_json >>= λ m. ok (some m)
]

-- The part of `read_chunk` that reads the file and checks the digest.
unfoldable pub read_verified : Platform → String → FileManifest → ℕ → Bytes → Result (Option Bytes)
read_verified platform info_hash m i content = do
  expected_size ← chunk_size_for_index m (pos i)
  let chunk_data = take expected_size (drop (i * m.chunk_size_bytes) content)
  let actual_hash = platform.sha256 chunk_data
  expected_hash ← elim (get_elem? m.chunk_sha256 i) [ none ↦ raise index_error | some h ↦ ok h ]
  if not (actual_hash == expected_hash)
      then raise (shared_chunk_corrupt info_hash i)
      else ok (some chunk_data)

-- The part of `read_chunk` behind the reading of the row.
unfoldable pub read_shared :
    Platform → String → FileManifest → String → ℤ → Shares → Result (Option Bytes)
unfolding read_verified
read_shared platform info_hash m file_path (negsuc i) s = ok none
read_shared platform info_hash m file_path (pos i) s =
    if is_outside m.total_chunks (pos i) then ok none else elim (read_file file_path s.disk) [
      | none ↦ raise (shared_file_missing file_path info_hash)
      | some content ↦ read_verified platform info_hash m i content
    ]

unfoldable pub read_chunk : Platform → String → ℤ → Shares → Result (Option Bytes)
unfolding read_shared
read_chunk platform info_hash chunk_index s = elim (find_row (is_share info_hash) s.shared_files) [
  | none ↦ ok none
  | some row ↦ validate platform row.manifest_json >>= λ m.
      read_shared platform info_hash m row.file_path chunk_index s
]
