-- ===== src/Download/Kept.antt =====
-- `write_chunk` of src/shardnet/client/core/download_store.py keeps a download intact.
use native.Mathlib.Nat.{mul_comm}
use shard_net.Base.{
  ℕ, pos, String, true, some, ◌≡◌, refl, ap, ◌∙◌, sym, subst, ◌*◌, ◌==◌, nat_eq, text_eq, length,
  get_elem?, if◌then◌else◌, arith, eq_iff, Bool-cases, inl, inr,
}
use shard_net.Base.SortedSet.{contains}
use shard_net.Base.Rows.{find_row}
use shard_net.Base.Rows.Laws.{any-update_where, find_row-update_where, find_row-holds}
use shard_net.Errors.{ok}
use shard_net.Platform.{Platform, Bytes}
use shard_net.Disk.{read_file, write_file, write_at, ensure_partial_file, read_file-write_file}
use shard_net.Disk.Slices.{truncate_id, length-write_at}
use shard_net.Manifest.{FileManifest, chunk_size_for_index}
use shard_net.Manifest.Shape.{HasShape}
use shard_net.Manifest.Chunking.{slice}
use shard_net.Download.Tables.{DownloadRow, complete, Local, is_download, is_chunk}
use shard_net.Download.Store.{
  chunks_with, complete_chunk, touch_download, mark_complete, write_partial, write_chunk,
}
use shard_net.Download.Writes.{written, write_chunk-Accepted}
use shard_net.Download.Progress.{HasRows, write_chunk-progress}
use shard_net.Download.Intact.{IsIntact, IsPlace, IsPlace-of_size, slice-write_at}

-- A chunk written into an intact download, and the download after it.
module _ (platform : Platform) (now : ℕ) (m : FileManifest) (i : ℕ) (chunk_data : Bytes) (s : Local)
    (shape : HasShape m) (intact : IsIntact platform m s) where
  path : String
  path = intact.row.temp_path

  bytes : Bytes
  bytes = write_at (i * m.chunk_size_bytes) chunk_data intact.content

  -- The file after the write.
  partial_after :
      (row : DownloadRow)
      → row.temp_path ≡ intact.row.temp_path
      → read_file path (written now m i chunk_data row s).disk ≡ some bytes
  unfolding path bytes mark_complete write_partial ensure_partial_file
  partial_after row e = rw e (
      ground (
        arith,
        intact.file,
        truncate_id m.file_size_bytes intact.content intact.size,
        eq_iff path path,
        read_file-write_file path path intact.content s.disk,
        read_file-write_file path path bytes (write_file path intact.content s.disk),
      ))

  downloads_after :
      (row : DownloadRow)
      → find_row (is_download m.info_hash) (written now m i chunk_data row s).downloads
        ≡ some (touch_download now intact.row)
  unfolding mark_complete write_partial
  downloads_after row =
      find_row-update_where (is_download m.info_hash) (is_download m.info_hash) (touch_download now)
        s.downloads {r = intact.row} (λ d. refl) intact.found
      ∙ ground (
        arith,
        find_row-holds (is_download m.info_hash) s.downloads {r = intact.row} intact.found,
      )

  rows_after :
      (row : DownloadRow)
      → HasRows m.info_hash m.total_chunks (written now m i chunk_data row s).download_chunks
  unfolding mark_complete write_partial
  rows_after row k =
      any-update_where (is_chunk m.info_hash k) (is_chunk m.info_hash i) (complete_chunk now)
        s.download_chunks (λ c. refl)
      ∙ intact.rows k

  -- The facts that the write has been accepted with, for the index `i` itself.
  pub record Fits (s' : Local) : Type 0 where
    pub place : IsPlace m i (length chunk_data)
    pub digest : get_elem? m.chunk_sha256 i ≡ some (platform.sha256 chunk_data)
    pub row : DownloadRow
    pub same_path : row.temp_path ≡ intact.row.temp_path
    pub result : s' ≡ written now m i chunk_data row s

  fits : (s' : Local) → write_chunk platform now m (pos i) chunk_data s ≡ (ok tt, s') → Fits s'
  fits s' e =
      let acc = write_chunk-Accepted platform now m chunk_data s (pos i) s' e in
      let same : acc.i ≡ i = ground (arith, acc.index) in
      record {
        place =
            IsPlace-of_size m i shape (omega (arith, acc.inside, same))
              (subst (λ j. chunk_size_for_index m (pos j) ≡ ok (length chunk_data)) same acc.size);
        digest =
            subst (λ j. get_elem? m.chunk_sha256 j ≡ some (platform.sha256 chunk_data)) same
              acc.digest;
        row = acc.row;
        same_path = ground (arith, acc.found, intact.found);
        result = acc.result ∙ ap (λ j. written now m j chunk_data acc.row s) same;
      }

  checked_after :
      (s' : Local)
      → write_chunk platform now m (pos i) chunk_data s ≡ (ok tt, s')
      → (k : ℕ) → contains k (chunks_with complete m.info_hash s'.download_chunks) ≡ true
      → get_elem? m.chunk_sha256 k ≡ some (platform.sha256 (slice m.chunk_size_bytes bytes k))
  unfolding bytes
  checked_after s' e k c =
      let f = fits s' e in
      let now_complete =
        (write_chunk-progress platform now m i chunk_data s s' intact.rows e k).0 in
      rw (slice-write_at m i chunk_data intact.content f.place intact.size k)
        (elim (Bool-cases (i == k)) [
          | inl same ↦
              rw same
                (ap (get_elem? m.chunk_sha256) (let e' : k ≡ i = ground arith in e') ∙ f.digest)
          | inr other ↦ rw other (intact.checked k (ground (arith, now_complete)))
        ])

  -- A chunk that is written joins the complete ones with its digest in place, and no other changes.
  pub write_chunk-IsIntact :
      (s' : Local)
      → write_chunk platform now m (pos i) chunk_data s ≡ (ok tt, s')
      → IsIntact platform m s'
  unfolding path bytes
  write_chunk-IsIntact s' e =
      let f = fits s' e in
      record {
        row = touch_download now intact.row;
        found =
            ap (λ (t : Local). find_row (is_download m.info_hash) t.downloads) f.result
            ∙ downloads_after f.row;
        manifest = intact.manifest;
        rows =
            subst (λ (t : Local). HasRows m.info_hash m.total_chunks t.download_chunks)
              (sym f.result) (rows_after f.row);
        content = bytes;
        file = ap (λ (t : Local). read_file path t.disk) f.result ∙ partial_after f.row f.same_path;
        size =
            length-write_at (i * m.chunk_size_bytes) chunk_data intact.content
              (omega (arith, f.place.within, mul_comm i m.chunk_size_bytes, intact.size))
            ∙ intact.size;
        checked = checked_after s' e;
      }

  -- The slices of the partial file after the write.
  pub write_chunk-slice :
      (s' : Local) (after : IsIntact platform m s')
      → write_chunk platform now m (pos i) chunk_data s ≡ (ok tt, s')
      → (k : ℕ)
      → slice m.chunk_size_bytes after.content k
        ≡ (if i == k then chunk_data else slice m.chunk_size_bytes intact.content k)
  unfolding path bytes
  write_chunk-slice s' after e k =
      let f = fits s' e in
      let row : after.row.temp_path ≡ intact.row.temp_path = ground (
        arith,
        after.found,
        ap (λ (t : Local). find_row (is_download m.info_hash) t.downloads) f.result,
        downloads_after f.row,
      ) in
      let same : after.content ≡ bytes = ground (
        arith,
        after.file,
        row,
        ap (λ (t : Local). read_file path t.disk) f.result,
        partial_after f.row f.same_path,
      ) in
      ap (λ (b : Bytes). slice m.chunk_size_bytes b k) same
      ∙ slice-write_at m i chunk_data intact.content f.place intact.size k
