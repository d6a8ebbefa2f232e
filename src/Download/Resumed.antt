-- ===== src/Download/Resumed.antt =====
-- `create_or_resume_download` of src/shardnet/client/core/download_store.py for a download in progress.
use shard_net.Base.{ℕ, String, some, ◌≡◌, refl, ap, ◌∙◌, nat_eq, text_eq, arith, eq_iff}
use shard_net.Base.Rows.{find_row, update_where}
use shard_net.Base.Rows.Laws.{find_row-update_where, find_row-holds}
use shard_net.Errors.{ok}
use shard_net.Platform.{Platform}
use shard_net.Disk.{read_file, ensure_partial_file, read_file-write_file}
use shard_net.Disk.Slices.{truncate_id}
use shard_net.Manifest.{FileManifest, model_dump, validate}
use shard_net.Manifest.Shape.{IsManifest, validate-model_dump, same_manifest_iff}
use shard_net.Download.Tables.{DownloadRow, Local, is_download}
use shard_net.Download.Store.{partial_path, retarget, create_or_retarget, create_or_resume_download}
use shard_net.Download.Intact.{IsIntact}
use shard_net.Download.Begun.{progress_of, get_progress_of}

module _ (platform : Platform) (partials_dir : String) (now : ℕ) (m : FileManifest)
    (target : String) (s : Local) (valid : IsManifest platform m) where
  -- The store after a known download has been resumed.
  unfoldable pub resumed : Local
  resumed = record s {
    downloads = update_where (is_download m.info_hash) (retarget now target) s.downloads;
    disk = ensure_partial_file (partial_path partials_dir m.info_hash) m.file_size_bytes s.disk;
  }

  pub resumed_found :
      (row : DownloadRow)
      → find_row (is_download m.info_hash) s.downloads ≡ some row
      → find_row (is_download m.info_hash) resumed.downloads ≡ some (retarget now target row)
  unfolding resumed
  resumed_found row found =
      find_row-update_where (is_download m.info_hash) (is_download m.info_hash)
        (retarget now target) s.downloads {r = row} (λ d. refl) found
      ∙ ground (arith, find_row-holds (is_download m.info_hash) s.downloads {r = row} found)

  -- A known download of the same manifest is resumed: its chunks and its status stay as they are, and
  -- only the target and the partial file are set anew.
  pub create_or_resume_download_known :
      (row : DownloadRow)
      → find_row (is_download m.info_hash) s.downloads ≡ some row
      → row.manifest_json ≡ model_dump m
      → create_or_resume_download platform partials_dir now m target s
        ≡ (ok (progress_of m row.status s), resumed)
  unfolding create_or_resume_download create_or_retarget resumed
  create_or_resume_download_known row found stored =
      let read : validate platform row.manifest_json ≡ ok m =
        ap (validate platform) stored ∙ validate-model_dump platform m valid in
      ground (
        arith,
        found,
        read,
        (same_manifest_iff m m).1 refl,
        get_progress_of platform m (retarget now target row) resumed valid (resumed_found row found)
            stored,
      )

  resumed_file :
      (intact : IsIntact platform m s)
      → intact.row.temp_path ≡ (partial_path partials_dir m.info_hash)
      → read_file intact.row.temp_path resumed.disk ≡ some intact.content
  unfolding resumed ensure_partial_file
  resumed_file intact e = rw e (
      read_file-write_file (partial_path partials_dir m.info_hash)
        (partial_path partials_dir m.info_hash) _ s.disk
      ∙ ground (
        arith,
        eq_iff (partial_path partials_dir m.info_hash) (partial_path partials_dir m.info_hash),
        ap (λ p. read_file p s.disk) e,
        intact.file,
        truncate_id m.file_size_bytes intact.content intact.size,
      ))

  -- A download that is interrupted and resumed keeps what it has: the same chunks are complete, and it is
  -- still intact.
  pub create_or_resume_download-IsIntact :
      (intact : IsIntact platform m s)
      → intact.row.temp_path ≡ partial_path partials_dir m.info_hash
      → (s' : Local) × (create_or_resume_download platform partials_dir now m target s
          ≡ (ok (progress_of m intact.row.status s), s'))
        × IsIntact platform m s'
  unfolding resumed
  create_or_resume_download-IsIntact intact e = (
    resumed,
    create_or_resume_download_known intact.row intact.found intact.manifest,
    record {
      row = retarget now target intact.row;
      found = resumed_found intact.row intact.found;
      manifest = intact.manifest;
      rows = intact.rows;
      content = intact.content;
      file = resumed_file intact e;
      size = intact.size;
      checked = intact.checked;
    },
  )
