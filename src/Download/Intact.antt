-- ===== src/Download/Intact.antt =====
-- The chunks that count as complete are in the partial file, with the digests of the manifest
-- (src/shardnet/client/core/download_store.py).
use Prim.Native.Nat.{min}
use native.Mathlib.Nat.{mul_comm}
use shard_net.Base.{
  ℕ, pos, true, some, ◌≡◌, ap, ◌∙◌, sym, ◌<◌, ◌≤◌, ◌+◌, ◌-◌, ◌*◌, ◌==◌, ◌⊎◌, nat_eq, text_eq,
  if◌then◌else◌, length, take, drop, get_elem?, arith, inl, inr,
}
use shard_net.Base.SortedSet.{contains}
use shard_net.Base.Rows.{find_row}
use shard_net.Errors.{ok}
use shard_net.Platform.{Platform, Bytes}
use shard_net.Disk.{read_file, write_at}
use shard_net.Disk.Slices.{before_write, behind_write, at_write}
use shard_net.Manifest.{FileManifest, model_dump, chunk_size_for_index}
use shard_net.Manifest.Shape.{HasShape, chunk_size_for_index_lem}
use shard_net.Manifest.Chunking.{slice}
use shard_net.Download.Tables.{DownloadRow, complete, Local, is_download}
use shard_net.Download.Store.{chunks_with}
use shard_net.Download.Progress.{HasRows}

-- A download in progress, of the manifest `m`.
pub record IsIntact (platform : Platform) (m : FileManifest) (s : Local) : Type 0 where
  pub row : DownloadRow
  pub found : find_row (is_download m.info_hash) s.downloads ≡ some row
  pub manifest : row.manifest_json ≡ model_dump m
  pub rows : HasRows m.info_hash m.total_chunks s.download_chunks
  pub content : Bytes
  pub file : read_file row.temp_path s.disk ≡ some content
  pub size : length content ≡ m.file_size_bytes
  pub checked :
      (k : ℕ)
      → contains k (chunks_with complete m.info_hash s.download_chunks) ≡ true
      → get_elem? m.chunk_sha256 k ≡ some (platform.sha256 (slice m.chunk_size_bytes content k))

later_chunk : (c k i : ℕ) → i < k → c * i + c ≤ c * k
later_chunk c k i p =
    let e : k ≡ i + 1 + (k - (i + 1)) = omega arith in omega (arith, ap (λ (t : ℕ). c * t) e)

-- The place of a chunk: it ends within the file, and has the chunk size or ends the file.
pub record IsPlace (m : FileManifest) (i len : ℕ) : Type 0 where
  pub short : len ≤ m.chunk_size_bytes
  pub within : m.chunk_size_bytes * i + len ≤ m.file_size_bytes
  pub full : (len ≡ m.chunk_size_bytes) ⊎ (m.chunk_size_bytes * i + len ≡ m.file_size_bytes)

pub IsPlace-of_size :
    (m : FileManifest) (i : ℕ) {len : ℕ}
    → HasShape m
    → i < m.total_chunks
    → chunk_size_for_index m (pos i) ≡ ok len
    → IsPlace m i len
IsPlace-of_size m i {len} h p e =
    let size : len ≡ min m.chunk_size_bytes (m.file_size_bytes - m.chunk_size_bytes * i) =
      ground (arith, e, chunk_size_for_index_lem m i h p) in
    let start : m.chunk_size_bytes * i < m.file_size_bytes = starts m.total_chunks h.least p in
    record { short = omega arith; within = omega arith; full = either size start }
  where
    starts :
        (total : ℕ)
        → m.chunk_size_bytes * (total - 1) < m.file_size_bytes
        → i < total
        → m.chunk_size_bytes * i < m.file_size_bytes
    starts total least q =
        let e' : total - 1 ≡ i + (total - 1 - i) = omega arith in
        omega (arith, least, ap (λ (t : ℕ). m.chunk_size_bytes * t) e')

    either :
        len ≡ min m.chunk_size_bytes (m.file_size_bytes - m.chunk_size_bytes * i)
        → m.chunk_size_bytes * i < m.file_size_bytes
        → (len ≡ m.chunk_size_bytes) ⊎ (m.chunk_size_bytes * i + len ≡ m.file_size_bytes)
    either s q = ground arith

module _ (m : FileManifest) (i : ℕ) (chunk content : Bytes) where
  -- A chunk's write fills its own slice and leaves the others alone.
  pub slice-write_at :
      IsPlace m i (length chunk)
      → length content ≡ m.file_size_bytes
      → (k : ℕ)
      → slice m.chunk_size_bytes (write_at (i * m.chunk_size_bytes) chunk content) k
        ≡ (if i == k then chunk else slice m.chunk_size_bytes content k)
  slice-write_at place size k = rw (mul_comm i c) (elim (compare_index k) [
    | inl same ↦
        ap (λ j. take c (drop (c * j) (write_at (c * i) chunk content))) (sym same)
        ∙ at_write (c * i) chunk content inside c place.short (ends place.full)
        ∙ ground (arith, same)
    | inr (inl before) ↦
        before_write (c * i) chunk content inside c (c * k) (later_chunk c i k before)
        ∙ ground arith
    | inr (inr behind) ↦
        behind_write (c * i) chunk content inside c (c * k)
          (omega (arith, later_chunk c k i behind, place.short))
        ∙ ground arith
  ])
    where
      c : ℕ
      c = m.chunk_size_bytes

      inside : c * i + length chunk ≤ length content
      inside = omega (arith, place.within)

      ends :
          (length chunk ≡ c) ⊎ (c * i + length chunk ≡ m.file_size_bytes)
          → (length chunk ≡ c) ⊎ (c * i + length chunk ≡ length content)
      ends (inl e) = inl e
      ends (inr e) = inr (e ∙ sym size)

      compare_index : (j : ℕ) → (i ≡ j) ⊎ ((j < i) ⊎ (i < j))
      compare_index j = grind arith
