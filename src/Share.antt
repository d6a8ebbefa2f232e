-- ===== src/Share.antt =====
-- `ShareStore` of src/shardnet/client/core/share_store.py.
pub mod Store
pub mod Served
