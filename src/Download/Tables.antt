-- ===== src/Download/Tables.antt =====
-- The tables of src/shardnet/client/core/download_store.py, and the actions of its methods.
use shard_net.Base.{ℕ, String, Bool, true, false, Option, List, ◌==◌, text_eq, nat_eq, ◌&&◌}
use shard_net.Manifest.{ManifestFields, Status}
use shard_net.Disk.{Disk}
use shard_net.Exec.{Exec}

pub record DownloadRow : Type 0 where
  pub info_hash : String
  pub manifest_json : ManifestFields
  pub target_path : String
  pub temp_path : String
  pub status : Status
  pub created_at : ℕ
  pub updated_at : ℕ

-- `CHECK(status IN ('pending', 'complete'))`.
pub data ChunkStatus : Type 0 where
  pending complete : ChunkStatus

pub record ChunkRow : Type 0 where
  pub info_hash : String
  pub chunk_index : ℕ
  pub status : ChunkStatus
  pub completed_at : Option ℕ

pub record Local : Type 0 where
  pub downloads : List DownloadRow
  pub download_chunks : List ChunkRow
  pub disk : Disk

-- A method: it returns or raises, and leaves the tables and the files.
abbrev pub Action : Type 0 → Type 0
Action A = Exec Local A

abbrev pub is_download : String → DownloadRow → Bool
is_download info_hash d = d.info_hash == info_hash

abbrev pub is_status : ChunkStatus → ChunkStatus → Bool
is_status pending pending = true
is_status pending complete = false
is_status complete pending = false
is_status complete complete = true

-- `WHERE info_hash = ? AND status = …`, and `WHERE info_hash = ? AND chunk_index = ?`.
abbrev pub has_status : String → ChunkStatus → ChunkRow → Bool
has_status info_hash status c = c.info_hash == info_hash && is_status c.status status

abbrev pub is_chunk : String → ℕ → ChunkRow → Bool
is_chunk info_hash chunk_index c = c.info_hash == info_hash && c.chunk_index == chunk_index
