-- ===== src/Serve.antt =====
-- The peer server: src/shardnet/client/core/peer_server.py.
pub mod Connection
pub mod Pieces
pub mod Rounds
