-- ===== src/Cluster.antt =====
-- bob/src/cluster: requests of a client, answered by the local node and the other nodes.
pub mod World
pub mod Targets
pub mod IndexMap
pub mod Tasks
pub mod Put
pub mod Get
pub mod Exist
pub mod Delete
