-- ===== src/Node/Closing.antt =====
-- The end of a download whose chunks are all those of the file (src/shardnet/client/core/node.py): it is
-- finalized, and the file is at its target.
use shard_net.Base.{String, some, [], ◌≡◌, refl, ap, ◌∙◌, sym, arith}
use shard_net.Base.Rows.{find_row}
use shard_net.Base.Rows.Laws.{find_row-update_where, find_row-holds}
use shard_net.Errors.{Result, ok}
use shard_net.Platform.{Bytes}
use shard_net.Disk.{read_file}
use shard_net.Disk.Whole.{same_slices}
use shard_net.Manifest.{FileManifest, DownloadProgress}
use shard_net.Manifest.Shape.{IsManifest}
use shard_net.Manifest.Chunking.{Describes}
use shard_net.Download.Tables.{Local, pending, is_download}
use shard_net.Download.Store.{chunks_with, finalize_download, finish, touch_download}
use shard_net.Download.Progress.{complete_or_missing}
use shard_net.Download.Begun.{progress_of, get_progress_of}
use shard_net.Download.Finish.{finalize_download-Delivered, finalize_download_succeeds, read_moved}
use shard_net.Node.Download.{Setting, finish_download}
use shard_net.Node.Honest.{IsFaithful}
use shard_net.Node.Target.{HasTarget}

module _ (node : Setting) (m : FileManifest) (original : Bytes) (target : String)
    (valid : IsManifest node.platform m) (d : Describes node.platform original m) where
  -- With nothing missing, the partial file is the file.
  whole :
      (s : Local) (h : IsFaithful node.platform m original s)
      → chunks_with pending m.info_hash s.download_chunks ≡ []
      → h.intact.content ≡ original
  whole s h none_missing =
      same_slices m.chunk_size_bytes h.intact.content original m.total_chunks
        (omega (arith, h.intact.size, valid.shape.most)) (h.intact.size ∙ d.size)
        (λ k p. h.agrees k (
          ground (
            arith,
            p,
            none_missing,
            complete_or_missing m.info_hash m.total_chunks s.download_chunks h.intact.rows k,
          )))

  -- The end of the download.
  pub finalized :
      (s : Local) (current : DownloadProgress)
      → IsFaithful node.platform m original s
      → HasTarget m.info_hash target s
      → chunks_with pending m.info_hash s.download_chunks ≡ []
      → current.missing_chunks ≡ []
      → (p : DownloadProgress) × (s' : Local) × (finish_download node m.info_hash current s
          ≡ (ok p, s'))
        × (p.missing_chunks ≡ [])
        × (read_file target s'.disk ≡ some original)
  unfolding finish_download HasTarget
  finalized s current h (row, found, at) none_missing done =
      let intact = h.intact in
      let platform = node.platform in
      let path = intact.row.target_path in
      let aimed : path ≡ target = ground (arith, intact.found, found, at) in
      let ended =
        finalize_download_succeeds platform node.now m s valid intact none_missing
          (ap platform.sha256 (whole s h none_missing) ∙ sym d.whole) in
      let s1 = (finalize_download platform node.now m.info_hash s).1 in
      let e : finalize_download platform node.now m.info_hash s ≡ (ok path, s1) =
        ap (λ (r : Result String). (r, s1)) ended in
      let del =
        finalize_download-Delivered platform node.now m s valid intact.row intact.found
          intact.manifest path s1 e in
      let same : del.content ≡ original =
        ground (arith, del.source, intact.file, whole s h none_missing) in
      let last = finish (touch_download node.now intact.row) in
      let there : find_row (is_download m.info_hash) s1.downloads ≡ some last =
        ap (λ (t : Local). find_row (is_download m.info_hash) t.downloads) del.result
        ∙ find_row-update_where (is_download m.info_hash) (is_download m.info_hash)
            (λ r. finish (touch_download node.now r)) s.downloads {r = intact.row} (λ r. refl)
            intact.found
        ∙ ground (
          arith,
          find_row-holds (is_download m.info_hash) s.downloads {r = intact.row} intact.found,
        ) in
      (
        progress_of m last.status s1,
        s1,
        ground (arith, done, e, get_progress_of platform m last s1 valid there intact.manifest),
        ap (λ (t : Local). chunks_with pending m.info_hash t.download_chunks) del.result
            ∙ none_missing,
        ap (λ p. read_file p s1.disk) (sym aimed)
            ∙ ap (λ (t : Local). read_file path t.disk) del.result
            ∙ read_moved intact.row.temp_path path del.content s
            ∙ ap some same,
      )
