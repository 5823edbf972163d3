-- ===== src/Raft.antt =====
-- The consensus core, raft/*.go.
pub mod Types
pub mod Log
pub mod Storage
pub mod Node
pub mod Role
pub mod Election
pub mod Replication
pub mod Service
pub mod Action
pub mod Vote
pub mod Durable
mod Tests
pub mod Create
pub mod Cluster
pub mod Net
pub mod Valid
pub mod Newest
pub mod Transport
pub mod Timer
