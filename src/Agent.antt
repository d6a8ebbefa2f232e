-- ===== src/Agent.antt =====
-- The local agent: src/shardnet/client/agent.
pub mod Runtime
pub mod Jobs
pub mod Sound
pub mod Settled
pub mod Endpoints
