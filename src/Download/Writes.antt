-- ===== src/Download/Writes.antt =====
-- How `write_chunk` of src/shardnet/client/core/download_store.py ends.
use shard_net.Base.{
  ℕ, ℤ, pos, negsuc, some, ◌≡◌, refl, ◌*◌, ◌<◌, nat_eq, text_eq, length, get_elem?, arith, eq_iff,
  Bool-cases, Option-cases, inl, inr,
}
use shard_net.Base.Rows.{find_row}
use shard_net.Errors.{ok, raise, Exception}
use shard_net.Platform.{Platform, Bytes}
use shard_net.Manifest.{FileManifest, is_outside, chunk_size_for_index}
use shard_net.Download.Tables.{DownloadRow, Local, is_download}
use shard_net.Download.Store.{write_partial, mark_complete, write_chunk_at, write_chunk}

-- The part of `write_chunk` behind its tests.
abbrev pub written : ℕ → FileManifest → ℕ → Bytes → DownloadRow → Local → Local
written now m i chunk_data row s =
    mark_complete now m.info_hash i
      (write_partial row.temp_path m.file_size_bytes (i * m.chunk_size_bytes) chunk_data s)

-- What a chunk that was written has passed.
pub record Accepted (platform : Platform) (now : ℕ) (m : FileManifest) (chunk_index : ℤ)
    (chunk_data : Bytes) (s s' : Local) : Type 0 where
  pub i : ℕ
  pub index : chunk_index ≡ pos i
  pub inside : i < m.total_chunks
  pub size : chunk_size_for_index m (pos i) ≡ ok (length chunk_data)
  pub digest : get_elem? m.chunk_sha256 i ≡ some (platform.sha256 chunk_data)
  pub row : DownloadRow
  pub found : find_row (is_download m.info_hash) s.downloads ≡ some row
  pub result : s' ≡ written now m i chunk_data row s

module _ (platform : Platform) (now : ℕ) (m : FileManifest) (chunk_data : Bytes) (s : Local) where
  refused_at :
      (i : ℕ) (e : Exception) (s' : Local)
      → write_chunk_at platform now m i chunk_data s ≡ (raise e, s')
      → s' ≡ s
  unfolding write_chunk_at
  refused_at i e s' h = ground (arith, eq_iff (platform.sha256 chunk_data))

  -- A chunk that is refused changes nothing, tables and files alike.
  pub write_chunk_refused :
      (chunk_index : ℤ) (e : Exception) (s' : Local)
      → write_chunk platform now m chunk_index chunk_data s ≡ (raise e, s')
      → s' ≡ s
  unfolding write_chunk
  write_chunk_refused (negsuc i) e s' h = ground arith
  write_chunk_refused (pos i) e s' h = ground (arith, refused_at i e s')

  Accepted-at :
      (i : ℕ) (s' : Local)
      → i < m.total_chunks
      → write_chunk_at platform now m i chunk_data s ≡ (ok tt, s')
      → Accepted platform now m (pos i) chunk_data s s'
  unfolding write_chunk_at
  Accepted-at i s' p h = elim (Option-cases (find_row (is_download m.info_hash) s.downloads)) [
    | inl unknown ↦ absurd (ground arith)
    | inr (row, found) ↦ elim (Option-cases (get_elem? m.chunk_sha256 i)) [
      | inl no_digest ↦ absurd (ground arith)
      | inr (expected, at) ↦ record {
        i = i;
        index = refl;
        inside = p;
        size = ground arith;
        digest = ground (arith, eq_iff (platform.sha256 chunk_data) expected);
        row = row;
        found = found;
        result = ground arith;
      }
    ]
  ]

  -- A chunk that is written has an index in range, the length and the digest of the manifest, and a
  -- known download; the tables and the file are as `written` says.
  pub write_chunk-Accepted :
      (chunk_index : ℤ) (s' : Local)
      → write_chunk platform now m chunk_index chunk_data s ≡ (ok tt, s')
      → Accepted platform now m chunk_index chunk_data s s'
  unfolding write_chunk
  write_chunk-Accepted (negsuc i) s' h = absurd (ground arith)
  write_chunk-Accepted (pos i) s' h = elim (Bool-cases (is_outside m.total_chunks (pos i))) [
    | inl outside ↦ absurd (ground arith)
    | inr inside ↦ Accepted-at i s' (ground arith) (ground arith)
  ]

  -- And a chunk that meets these conditions is written.
  pub write_chunk_accepts :
      (i : ℕ) (row : DownloadRow)
      → i < m.total_chunks
      → chunk_size_for_index m (pos i) ≡ ok (length chunk_data)
      → get_elem? m.chunk_sha256 i ≡ some (platform.sha256 chunk_data)
      → find_row (is_download m.info_hash) s.downloads ≡ some row
      → write_chunk platform now m (pos i) chunk_data s ≡ (ok tt, written now m i chunk_data row s)
  unfolding write_chunk write_chunk_at
  write_chunk_accepts i row p size digest found =
      ground (arith, eq_iff (platform.sha256 chunk_data) (platform.sha256 chunk_data))
