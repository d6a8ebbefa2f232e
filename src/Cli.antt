-- ===== src/Cli.antt =====
-- The commands of src/shardnet/cli/main.py that run a node or read a download.
pub mod Commands
pub mod Ends
