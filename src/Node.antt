-- ===== src/Node.antt =====
-- The downloads of a peer: `PeerNode` of src/shardnet/client/core/node.py.
pub mod Download
pub mod Resumable
pub mod Target
pub mod Delivered
pub mod Sharing
pub mod Found
pub mod Honest
pub mod Closing
pub mod Completed
pub mod Lifecycle
pub mod Alive
pub mod Shared
