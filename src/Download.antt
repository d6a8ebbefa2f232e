-- ===== src/Download.antt =====
-- `DownloadStore` of src/shardnet/client/core/download_store.py.
pub mod Tables
pub mod Store
pub mod Writes
pub mod Progress
pub mod Intact
pub mod Kept
pub mod Begun
pub mod Resumed
pub mod Finish
pub mod Rerun
