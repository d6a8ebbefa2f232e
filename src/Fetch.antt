-- ===== src/Fetch.antt =====
-- The peer client: src/shardnet/client/core/peer_client.py.
pub mod Request
pub mod Retry
pub mod Answers
pub mod Rounds
pub mod Attempts
pub mod Exchange
