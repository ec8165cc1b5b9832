-- ===== src/Examples.antt =====
-- Concrete inputs for the theorems, with the modules of the same names.
pub mod Data
pub mod Config
pub mod Mapper
pub mod MemBackend
pub mod Cluster
pub mod Get
pub mod Exist
pub mod ClusterExist
pub mod Delete
pub mod Pearl
pub mod Access
