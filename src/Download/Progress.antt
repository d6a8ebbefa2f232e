-- ===== src/Download/Progress.antt =====
-- The progress of a download (src/shardnet/client/core/download_store.py): which chunks count as
-- complete and which as missing.
use shard_net.Base.{
  ℕ, pos, String, not, List, [], ◌∷◌, map, ◌≡◌, refl, ap, ◌∙◌, sym, ◌==◌, ◌&&◌, ◌||◌, nat_eq,
  text_eq, ltb, any, arith,
}
use shard_net.Base.SortedSet.{contains, contains-sorted_set}
use shard_net.Base.Rows.{select_where, update_where}
use shard_net.Base.Rows.Laws.{any-select_where}
use shard_net.Errors.{ok}
use shard_net.Platform.{Platform, Bytes}
use shard_net.Manifest.{FileManifest}
use shard_net.Download.Tables.{
  ChunkRow, ChunkStatus, pending, complete, Local, has_status, is_chunk,
}
use shard_net.Download.Store.{
  chunks_with, complete_chunk, mark_complete, write_partial, write_chunk,
}
use shard_net.Download.Writes.{write_chunk-Accepted}

contains-map_index :
    (k : ℕ) (rows : List ChunkRow)
    → contains k (map (λ c. c.chunk_index) rows) ≡ any (λ c. c.chunk_index == k) rows
contains-map_index k [] = refl
contains-map_index k (c ∷ cs) = ground (arith, contains-map_index k cs)

-- A chunk is listed with a status exactly when a row says so.
pub contains-chunks_with :
    (status : ChunkStatus) (info_hash : String) (rows : List ChunkRow) (k : ℕ)
    → contains k (chunks_with status info_hash rows)
      ≡ any (λ c. has_status info_hash status c && c.chunk_index == k) rows
unfolding chunks_with
contains-chunks_with status info_hash rows k =
    contains-sorted_set k _
    ∙ contains-map_index k (select_where (has_status info_hash status) rows)
    ∙ any-select_where (λ c. c.chunk_index == k) (has_status info_hash status) rows

-- The rows of a download are for the chunks below `total`, and for no other.
abbrev pub HasRows : String → ℕ → List ChunkRow → Type 0
HasRows info_hash total rows = (k : ℕ) → any (is_chunk info_hash k) rows ≡ ltb k total

either_status :
    (info_hash : String) (k : ℕ) (rows : List ChunkRow)
    → (any (λ c. has_status info_hash complete c && c.chunk_index == k) rows
        || any (λ c. has_status info_hash pending c && c.chunk_index == k) rows)
      ≡ any (is_chunk info_hash k) rows
either_status info_hash k [] = refl
either_status info_hash k (c ∷ cs) = ground (arith, either_status info_hash k cs)

-- Every chunk of the file is complete or missing.
pub complete_or_missing :
    (info_hash : String) (total : ℕ) (rows : List ChunkRow)
    → HasRows info_hash total rows
    → (k : ℕ)
    → (contains k (chunks_with complete info_hash rows)
        || contains k (chunks_with pending info_hash rows))
      ≡ ltb k total
complete_or_missing info_hash total rows h k =
    rw
      (
        contains-chunks_with complete info_hash rows k,
        contains-chunks_with pending info_hash rows k,
      )
      (either_status info_hash k rows ∙ h k)

module _ (now : ℕ) (info_hash : String) (i : ℕ) where
  marked : List ChunkRow → List ChunkRow
  marked = update_where (is_chunk info_hash i) (complete_chunk now)

  complete-marked :
      (k : ℕ) (rows : List ChunkRow)
      → any (λ c. has_status info_hash complete c && c.chunk_index == k) (marked rows) ≡ (
          (i == k && any (is_chunk info_hash i) rows)
          || any (λ c. has_status info_hash complete c && c.chunk_index == k) rows)
  unfolding marked
  complete-marked k [] = ground arith
  complete-marked k (c ∷ cs) = ground (arith, complete-marked k cs)

  missing-marked :
      (k : ℕ) (rows : List ChunkRow)
      → any (λ c. has_status info_hash pending c && c.chunk_index == k) (marked rows)
        ≡ (not (i == k) && any (λ c. has_status info_hash pending c && c.chunk_index == k) rows)
  unfolding marked
  missing-marked k [] = ground arith
  missing-marked k (c ∷ cs) = ground (arith, missing-marked k cs)

-- After a chunk has been written, that chunk and those complete before are complete, and those missing
-- before but this one are missing.
pub write_chunk-progress :
    (platform : Platform) (now : ℕ) (m : FileManifest) (i : ℕ) (chunk_data : Bytes) (s s' : Local)
    → HasRows m.info_hash m.total_chunks s.download_chunks
    → write_chunk platform now m (pos i) chunk_data s ≡ (ok tt, s')
    → (k : ℕ)
    → (contains k (chunks_with complete m.info_hash s'.download_chunks)
        ≡ (i == k || contains k (chunks_with complete m.info_hash s.download_chunks)))
      × (contains k (chunks_with pending m.info_hash s'.download_chunks)
          ≡ (not (i == k) && contains k (chunks_with pending m.info_hash s.download_chunks)))
unfolding marked mark_complete write_partial
write_chunk-progress platform now m i chunk_data s s' h e k =
    let acc = write_chunk-Accepted platform now m chunk_data s (pos i) s' e in
    let same : i ≡ acc.i = ground (arith, acc.index) in
    let rows : s'.download_chunks ≡ marked now m.info_hash i s.download_chunks =
      ap (λ (t : Local). t.download_chunks) acc.result
      ∙ ap (λ j. marked now m.info_hash j s.download_chunks) (sym same) in
    (
      rw rows (
          ground (
            arith,
            contains-chunks_with complete m.info_hash (marked now m.info_hash i s.download_chunks)
                k,
            contains-chunks_with complete m.info_hash s.download_chunks k,
            complete-marked now m.info_hash i k s.download_chunks,
            h i,
            acc.inside,
            same,
          )),
      rw rows (
          ground (
            arith,
            contains-chunks_with pending m.info_hash (marked now m.info_hash i s.download_chunks) k,
            contains-chunks_with pending m.info_hash s.download_chunks k,
            missing-marked now m.info_hash i k s.download_chunks,
          )),
    )
