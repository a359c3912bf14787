-- ===== src/Raft.antt =====
-- internal/raft: the consensus module.
pub mod Types
pub mod Node
pub mod Vote
pub mod Append
pub mod Commit
pub mod Memory
pub mod Deliver
pub mod Leader
pub mod Replicate
pub mod Election
pub mod Cluster
pub mod Transport
