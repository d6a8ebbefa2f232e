-- ===== src/Tracker.antt =====
-- The tracker: src/shardnet/tracker.
pub mod Tables
pub mod Chunks
pub mod Store
pub mod Swarm
