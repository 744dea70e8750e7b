-- ===== src/Raft.antt =====
-- wraft/src/raft: the consensus algorithm.
pub mod Types
pub mod Storage
pub mod Worker
pub mod Votes
pub mod Replication
pub mod Leading
pub mod Cluster
pub mod Clients
pub mod Setup
pub mod StateMachine
pub mod Client
