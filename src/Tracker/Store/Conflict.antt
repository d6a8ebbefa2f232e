-- ===== src/Tracker/Store/Conflict.antt =====
-- `_has_metadata_conflict` of src/shardnet/tracker/store.py.
use shard_net.Base.{◌≡◌, ◌↔◌, false, eq_iff, arith, list_beq_iff, text_eq}
use shard_net.Tracker.Tables.{FileRow}
use shard_net.Tracker.Chunks.{parse_chunk_hashes}
use shard_net.Tracker.Store.{Announcement, has_metadata_conflict}

-- What the stored row and the announcement both say of the file.
pub record Agrees (row : FileRow) (a : Announcement) : Type 0 where
  pub file_name : row.file_name ≡ a.file_name
  pub file_size_bytes : row.file_size_bytes ≡ a.file_size_bytes
  pub chunk_size_bytes : row.chunk_size_bytes ≡ a.chunk_size_bytes
  pub total_chunks : row.total_chunks ≡ a.total_chunks
  pub file_sha256 : row.file_sha256 ≡ a.file_sha256
  pub chunk_sha256 : parse_chunk_hashes row.chunk_sha256 ≡ a.chunk_sha256

pub has_metadata_conflict-Agrees :
    (row : FileRow) (a : Announcement) → (has_metadata_conflict row a ≡ false) ↔ Agrees row a
unfolding has_metadata_conflict
has_metadata_conflict-Agrees row a = ground (
  arith,
  eq_iff row.file_name a.file_name,
  eq_iff row.file_sha256 a.file_sha256,
  list_beq_iff (parse_chunk_hashes row.chunk_sha256) a.chunk_sha256,
)
