-- ===== src/Tests.antt =====
-- Concrete nodes, storages and requests, and the theorems applied to them.
mod Data
mod Votes
mod Replication
mod Leading
mod RingBuf
mod Sharing
mod Exchange
mod Transport
mod Peer
mod Todo
mod App
mod Clients
mod Cluster
mod Introducer
mod Introduction
mod Setup
