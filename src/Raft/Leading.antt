-- ===== src/Raft/Leading.antt =====
-- The leader's side of worker.rs: what it commits, what it learns of its peers, and how it fails.
pub mod Commit
pub mod Progress
pub mod Crash
pub mod Reign
pub mod Sharing
pub mod Exchange
pub mod Election
