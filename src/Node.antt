-- ===== src/Node.antt =====
-- bob-common/src/node.rs and core_types.rs: nodes, disks, virtual disks. Names are texts. A node
-- carries what `connection_available()` reads of its shared flag, as it stands during one call;
-- the connection itself belongs to the gRPC client and is no part of the model.
use bob.Prelude.{Bool, List, String, ℕ}

pub record Node : Type 0 where
  pub name : String
  pub address : String
  pub index : ℕ
  pub conn_available : Bool

pub record DiskPath : Type 0 where
  pub name : String
  pub path : String

pub record NodeDisk : Type 0 where
  pub node_name : String
  pub disk_name : String
  pub disk_path : String

pub record VDisk : Type 0 where
  pub id : ℕ
  pub replicas : List NodeDisk
  pub nodes : List Node

-- `DiskPath::from(&NodeDisk)`
abbrev pub disk_path_from : NodeDisk → DiskPath
disk_path_from d = record { name = d.disk_name; path = d.disk_path }
