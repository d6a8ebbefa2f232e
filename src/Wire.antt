-- ===== src/Wire.antt =====
-- The wire protocol between peers: src/shardnet/client/core/protocol.py.
pub mod Frames
pub mod RoundTrip
