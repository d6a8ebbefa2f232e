-- ===== src/Download/Store.antt =====
-- The methods of `DownloadStore` in src/shardnet/client/core/download_store.py, at the time `now`. Every
-- raise stands before the first write to the tables, so nothing is rolled back. Paths are resolved by
-- the caller.
use Prim.Native.String.{◌++◌ as join_text}
use shard_net.Base.{
  ℕ, ℤ, pos, negsuc, String, not, Option, none, some, List, [], ◌∷◌, ◌++◌, map, ◌*◌, ◌==◌, nat_eq,
  text_eq, ltb, if◌then◌else◌, length, count, get_elem?,
}
use shard_net.Base.Rows.{find_row, select_where, update_where}
use shard_net.Base.SortedSet.{sorted_set, range}
use shard_net.Json.{str, int, Fields, field, end}
use shard_net.Errors.{Exception, transfer, index_error, os_error}
use shard_net.Platform.{Platform, Bytes}
use shard_net.Disk.{read_file, write_file, ensure_partial_file, write_at, move_file, or_empty}
use shard_net.Manifest.{
  FileManifest, validate, model_dump, same_manifest, is_outside, chunk_size_for_index, active,
  completed, DownloadProgress,
}
use shard_net.Download.Tables.{
  DownloadRow, ChunkRow, ChunkStatus, pending, complete, Local, Action, is_download, has_status,
  is_chunk,
}
use shard_net.Exec.{◌>>=◌, ◌>>◌, pure, throw, lift, gets, modify, throw_if, or_throw}

abbrev pub transfer_error : String → String → Fields → Exception
transfer_error code message context =
    transfer (record { code = code; message = message; context = context })

abbrev pub manifest_mismatch : String → Exception
manifest_mismatch info_hash =
    transfer_error "manifest_mismatch" "Existing download manifest differs from provided manifest."
      (field "info_hash" (str info_hash) end)

abbrev pub invalid_chunk_index : ℤ → ℕ → Exception
invalid_chunk_index chunk_index total_chunks =
    transfer_error "invalid_chunk_index" "Chunk index is outside manifest bounds."
      (field "chunk_index" (int chunk_index) (field "total_chunks" (int (pos total_chunks)) end))

abbrev pub invalid_chunk_size : ℤ → ℕ → Exception
invalid_chunk_size chunk_index expected_size =
    transfer_error "invalid_chunk_size" "Chunk length does not match manifest expectations."
      (field "chunk_index" (int chunk_index) (field "expected_size" (int (pos expected_size)) end))

abbrev pub chunk_hash_mismatch : ℤ → String → String → Exception
chunk_hash_mismatch chunk_index expected_hash actual_hash =
    transfer_error "chunk_hash_mismatch" "Chunk failed SHA-256 verification." (
      field "chunk_index" (int chunk_index)
        (field "expected_hash" (str expected_hash) (field "actual_hash" (str actual_hash) end)))

abbrev pub download_not_initialized : String → Exception
download_not_initialized info_hash =
    transfer_error "download_not_initialized" "Download must be initialized before writing chunks."
      (field "info_hash" (str info_hash) end)

abbrev pub download_not_found : String → Exception
download_not_found info_hash =
    transfer_error "download_not_found" "No download state exists for the requested info_hash."
      (field "info_hash" (str info_hash) end)

abbrev pub download_incomplete : String → ℕ → Exception
download_incomplete info_hash pending_count =
    transfer_error "download_incomplete" "Cannot finalize download while chunks are still pending."
      (field "info_hash" (str info_hash) (field "pending_chunks" (int (pos pending_count)) end))

abbrev pub file_hash_mismatch : String → String → String → Exception
file_hash_mismatch info_hash expected_hash actual_hash =
    transfer_error "file_hash_mismatch" "Final file hash verification failed." (
      field "info_hash" (str info_hash)
        (field "expected_hash" (str expected_hash) (field "actual_hash" (str actual_hash) end)))

-- `self._partials_dir / f"{info_hash}.part"`.
unfoldable pub partial_path : String → String → String
partial_path partials_dir info_hash =
    join_text partials_dir (join_text "/" (join_text info_hash ".part"))

-- `SELECT chunk_index … WHERE info_hash = ? AND status = … ORDER BY chunk_index ASC`: the key makes the
-- indexes distinct.
unfoldable pub chunks_with : ChunkStatus → String → List ChunkRow → List ℕ
chunks_with status info_hash rows =
    sorted_set ltb (map (λ c. c.chunk_index) (select_where (has_status info_hash status) rows))

unfoldable pub missing_chunks : String → Action (List ℕ)
unfolding chunks_with
missing_chunks info_hash = gets (λ s. chunks_with pending info_hash s.download_chunks)

unfoldable pub completed_chunks : String → Action (List ℕ)
unfolding chunks_with
completed_chunks info_hash = gets (λ s. chunks_with complete info_hash s.download_chunks)

-- The columns can hold no other status.
unfoldable pub get_progress : Platform → String → Action DownloadProgress
unfolding missing_chunks completed_chunks
get_progress platform info_hash = do
  found ← gets (λ s. find_row (is_download info_hash) s.downloads)
  row ← or_throw found (download_not_found info_hash)
  manifest ← lift (validate platform row.manifest_json)
  done ← completed_chunks info_hash
  missing ← missing_chunks info_hash
  pure (record {
    info_hash = info_hash;
    total_chunks = manifest.total_chunks;
    completed_chunks = done;
    missing_chunks = missing;
    status = row.status;
  })

abbrev pub new_download : ℕ → FileManifest → String → String → DownloadRow
new_download now m target temp_path = record {
  info_hash = m.info_hash;
  manifest_json = model_dump m;
  target_path = target;
  temp_path = temp_path;
  status = active;
  created_at = now;
  updated_at = now;
}

abbrev pub pending_chunk : String → ℕ → ChunkRow
pending_chunk info_hash chunk_index = record {
  info_hash = info_hash;
  chunk_index = chunk_index;
  status = pending;
  completed_at = none;
}

abbrev pub retarget : ℕ → String → DownloadRow → DownloadRow
retarget now target d = record d { target_path = target; updated_at = now }

-- The block on the tables in `create_or_resume_download`.
unfoldable pub create_or_retarget :
    Platform → String → ℕ → FileManifest → String → Option DownloadRow → Action (Unit {0})
create_or_retarget platform temp_path now m target none = modify λ s. record s {
  downloads = s.downloads ++ new_download now m target temp_path ∷ [];
  download_chunks = s.download_chunks ++ map (pending_chunk m.info_hash) (range m.total_chunks);
}
create_or_retarget platform temp_path now m target (some row) = do
  stored ← lift (validate platform row.manifest_json)
  throw_if (not (same_manifest stored m)) (manifest_mismatch m.info_hash)
  modify λ s. record s {
    downloads = update_where (is_download m.info_hash) (retarget now target) s.downloads;
  }

unfoldable pub create_or_resume_download :
    Platform → String → ℕ → FileManifest → String → Action DownloadProgress
unfolding create_or_retarget get_progress
create_or_resume_download platform partials_dir now m target = do
  let temp_path = partial_path partials_dir m.info_hash
  row ← gets (λ s. find_row (is_download m.info_hash) s.downloads)
  create_or_retarget platform temp_path now m target row
  modify (λ s. record s { disk = ensure_partial_file temp_path m.file_size_bytes s.disk })
  get_progress platform m.info_hash

abbrev pub complete_chunk : ℕ → ChunkRow → ChunkRow
complete_chunk now c = record c { status = complete; completed_at = some now }

abbrev pub touch_download : ℕ → DownloadRow → DownloadRow
touch_download now d = record d { updated_at = now }

-- The file operations of `write_chunk`; the file is there after the first of them.
unfoldable pub write_partial : String → ℕ → ℕ → Bytes → Local → Local
write_partial temp_path file_size_bytes offset chunk_data s =
    let disk = ensure_partial_file temp_path file_size_bytes s.disk in
    let content = or_empty (read_file temp_path disk) in
    record s { disk = write_file temp_path (write_at offset chunk_data content) disk }

unfoldable pub mark_complete : ℕ → String → ℕ → Local → Local
mark_complete now info_hash chunk_index s = record s {
  download_chunks =
      update_where (is_chunk info_hash chunk_index) (complete_chunk now) s.download_chunks;
  downloads = update_where (is_download info_hash) (touch_download now) s.downloads;
}

-- The part of `write_chunk` behind the test of the index: a list access of Python, `list[i]`.
unfoldable pub write_chunk_at : Platform → ℕ → FileManifest → ℕ → Bytes → Action (Unit {0})
unfolding write_partial mark_complete
write_chunk_at platform now m i chunk_data = do
  expected_size ← lift (chunk_size_for_index m (pos i))
  throw_if (not (length chunk_data == expected_size)) (invalid_chunk_size (pos i) expected_size)
  expected_hash ← or_throw (get_elem? m.chunk_sha256 i) index_error
  let actual_hash = platform.sha256 chunk_data
  throw_if (not (actual_hash == expected_hash))
      (chunk_hash_mismatch (pos i) expected_hash actual_hash)
  found ← gets (λ s. find_row (is_download m.info_hash) s.downloads)
  row ← or_throw found (download_not_initialized m.info_hash)
  modify (write_partial row.temp_path m.file_size_bytes (i * m.chunk_size_bytes) chunk_data)
  modify (mark_complete now m.info_hash i)

unfoldable pub write_chunk : Platform → ℕ → FileManifest → ℤ → Bytes → Action (Unit {0})
unfolding write_chunk_at
write_chunk platform now m (negsuc i) chunk_data =
    throw (invalid_chunk_index (negsuc i) m.total_chunks)
write_chunk platform now m (pos i) chunk_data =
    if is_outside m.total_chunks (pos i)
    then throw (invalid_chunk_index (pos i) m.total_chunks)
    else write_chunk_at platform now m i chunk_data

abbrev pub finish : DownloadRow → DownloadRow
finish d = record d { status = completed }

unfoldable pub finalize_download : Platform → ℕ → String → Action String
finalize_download platform now info_hash = do
  found ← gets (λ s. find_row (is_download info_hash) s.downloads)
  row ← or_throw found (download_not_found info_hash)
  pending_count ← gets (λ s. count (has_status info_hash pending) s.download_chunks)
  throw_if (ltb 0 pending_count) (download_incomplete info_hash pending_count)
  manifest ← lift (validate platform row.manifest_json)
  partial_file ← gets (λ s. read_file row.temp_path s.disk)
  content ← or_throw partial_file os_error
  let actual_file_hash = platform.sha256 content
  throw_if (not (actual_file_hash == manifest.file_sha256))
      (file_hash_mismatch info_hash manifest.file_sha256 actual_file_hash)
  modify (λ s. record s { disk = move_file row.temp_path row.target_path content s.disk })
  modify λ s. record s {
    downloads =
        update_where (is_download info_hash) (λ d. finish (touch_download now d)) s.downloads;
  }
  pure row.target_path
