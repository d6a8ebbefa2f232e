-- ===== src/Api.antt =====
-- The tracker's HTTP interface and its client: src/shardnet/tracker/api.py and schemas.py, and
-- src/shardnet/client/core/tracker_client.py.
pub mod Schemas
pub mod Routes
pub mod Client
pub mod Accepted
pub mod Errors
pub mod Relayed
pub mod Shared
pub mod Reached
pub mod Statuses
