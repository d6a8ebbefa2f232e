-- ===== src/Download/Rerun.antt =====
-- A finished download that is asked for again: `create_or_resume_download` and `finalize_download` of
-- src/shardnet/client/core/download_store.py, as `download_file` of node.py calls them.
use shard_net.Base.{
  ℕ, zero, suc, String, false, none, some, [], ◌≡◌, ◌≢◌, refl, ap, ◌∙◌, sym, text_eq, count,
  replicate, arith, eq_iff,
}
use shard_net.Base.SortedSet.{contains}
use shard_net.Base.Rows.{find_row}
use shard_net.Base.Rows.Laws.{find_row-update_where, find_row-holds}
use shard_net.Errors.{ok, raise}
use shard_net.Platform.{Platform, Bytes}
use shard_net.Disk.{
  Disk, read_file, remove_file, move_file, truncate, or_empty, ensure_partial_file,
  read_file-write_file, read_file-remove_file,
}
use shard_net.Manifest.{FileManifest, model_dump, validate, completed}
use shard_net.Manifest.Shape.{IsManifest, validate-model_dump}
use shard_net.Download.Tables.{DownloadRow, pending, Local, is_download, has_status}
use shard_net.Download.Store.{
  chunks_with, finish, touch_download, finalize_download, create_or_resume_download, partial_path,
  file_hash_mismatch, retarget,
}
use shard_net.Download.Begun.{progress_of}
use shard_net.Download.Resumed.{resumed, resumed_found, create_or_resume_download_known}
use shard_net.Download.Finish.{finalize_download-Delivered, no_pending}

-- A file that is moved away is gone.
gone :
    (from to : String) (content : Bytes) (disk : Disk)
    → to ≢ from
    → read_file from (move_file from to content disk) ≡ none
unfolding move_file
gone from to content disk apart =
    read_file-write_file to from content (remove_file from disk)
    ∙ ground (arith, eq_iff to from, eq_iff from from, read_file-remove_file from from disk)

filled : (size : ℕ) → truncate size [] ≡ replicate size 0
unfolding truncate
filled zero = refl
filled (suc size) = ap (λ (n : ℕ). replicate n 0) {y = suc size} (omega arith)

-- The partial file of a finished download that is resumed is all zero bytes.
zero_filled :
    (from to : String) (size : ℕ) (content : Bytes) (disk : Disk)
    → to ≢ from
    → read_file from (ensure_partial_file from size (move_file from to content disk))
      ≡ some (replicate size 0)
unfolding ensure_partial_file
zero_filled from to size content disk apart =
    read_file-write_file from from _ _
    ∙ ground (
      arith,
      eq_iff from from,
      ap (λ o. truncate size (or_empty o)) (gone from to content disk apart),
      filled size,
    )

-- A finished download that is asked for again with the same manifest is reported as completed with
-- nothing missing, and then its finalization is refused, since the partial file is now all zero bytes;
-- unless these have the digest of the file, or its target is the partial file.
pub finalize_download-create_or_resume_download :
    (platform : Platform) (partials_dir : String) (now later : ℕ) (m : FileManifest)
    (target : String) (s : Local) (valid : IsManifest platform m) (row : DownloadRow)
    (path : String) (s' : Local)
    → find_row (is_download m.info_hash) s.downloads ≡ some row
    → row.manifest_json ≡ model_dump m
    → row.temp_path ≡ partial_path partials_dir m.info_hash
    → row.target_path ≢ row.temp_path
    → platform.sha256 (replicate m.file_size_bytes 0) ≢ m.file_sha256
    → finalize_download platform now m.info_hash s ≡ (ok path, s')
    → (s2 : Local) × (create_or_resume_download platform partials_dir later m target s'
        ≡ (ok (progress_of m completed s'), s2))
      × ((k : ℕ) → contains k (chunks_with pending m.info_hash s'.download_chunks) ≡ false)
      × (finalize_download platform later m.info_hash s2 ≡ (
        raise (
            file_hash_mismatch m.info_hash m.file_sha256
              (platform.sha256 (replicate m.file_size_bytes 0))),
        s2,
      ))
unfolding finalize_download resumed
finalize_download-create_or_resume_download platform partials_dir now later m target s valid row
      path s' found stored place apart other e =
    let d = finalize_download-Delivered platform now m s valid row found stored path s' e in
    let done : DownloadRow = finish (touch_download now row) in
    let found_done : find_row (is_download m.info_hash) s'.downloads ≡ some done =
      ap (λ (t : Local). find_row (is_download m.info_hash) t.downloads) d.result
      ∙ find_row-update_where (is_download m.info_hash) (is_download m.info_hash)
          (λ r. finish (touch_download now r)) s.downloads {r = row} (λ r. refl) found
      ∙ ground (arith, find_row-holds (is_download m.info_hash) s.downloads {r = row} found) in
    let again : DownloadRow = retarget later target done in
    let s2 : Local = resumed platform partials_dir later m target s' valid in
    let read : validate platform again.manifest_json ≡ ok m =
      ap (validate platform) stored ∙ validate-model_dump platform m valid in
    let chunks : s'.download_chunks ≡ s.download_chunks =
      ap (λ (t : Local). t.download_chunks) d.result in
    let zeros : read_file again.temp_path s2.disk ≡ some (replicate m.file_size_bytes 0) =
      ap (λ p. read_file row.temp_path (ensure_partial_file p m.file_size_bytes s'.disk))
        (sym place)
      ∙ ap
          (λ (t : Local).
            read_file row.temp_path (ensure_partial_file row.temp_path m.file_size_bytes t.disk))
          d.result
      ∙ zero_filled row.temp_path row.target_path m.file_size_bytes d.content s.disk apart in
    let pending_none : count (has_status m.info_hash pending) s2.download_chunks ≡ 0 =
      ap (count (has_status m.info_hash pending)) chunks ∙ d.nothing_pending in
    (
      s2,
      create_or_resume_download_known platform partials_dir later m target s' valid done found_done
          stored,
      (λ k.
          no_pending m.info_hash s'.download_chunks
            (ap (count (has_status m.info_hash pending)) chunks ∙ d.nothing_pending) k),
      ground (
        arith,
        resumed_found platform partials_dir later m target s' valid done found_done,
        read,
        zeros,
        pending_none,
        eq_iff (platform.sha256 (replicate m.file_size_bytes 0)) m.file_sha256,
      ),
    )
