-- ===== src/Lib.antt =====
-- Verification of Bob, a distributed store of blobs. A node of the cluster keeps the replicas of
-- the virtual disks (vdisks) that the configuration places on its disks. A request goes to any
-- node, which finds the vdisk of the key and asks the disks and nodes that hold it. Data for a node
-- that does not answer is kept as an alien, on another node or in the alien storage here.
--
-- The parts, from the data up:
--   * Data (bob-common/src/data.rs): keys and data, as bytes; their serialization.
--   * Node (bob-common/src/node.rs, core_types.rs), Error (bob-common/src/error.rs), Map (the
--     standard HashMap): records, kinds of error, association lists with one entry for each key.
--   * Options (bob-common/src/operation_options.rs) and Options/Messages (bob-grpc): the options
--     of a request, and the messages that carry them.
--   * Config (bob-common/src/configs/cluster.rs, validation.rs): the configuration of the cluster;
--     Cluster::validate is Config.validate, the helpers of validation.rs are in Config/Checks,
--     Cluster::collect_vdisk_replicas is in Config/Replicas. What passes is stated in
--     Config/Validated.
--   * Mapper (bob-common/src/mapper.rs): the struct Virtual and its methods, by the same names.
--     Mapper/Build is Virtual::new, Mapper/VdiskId the distribution of keys, Mapper/Offset and
--     Mapper/Support are the two halves of get_support_nodes: where the visit starts, and which
--     nodes it takes.
--   * Backend (bob-backend/src/core.rs): put, get (get_data), exist and delete in front of a
--     storage, the interface BackendStorage of Backend/Storage; put_single and the others by the
--     names of the source, their loops as functions of their own (put_remotes, put_paths, ...).
--   * MemBackend (bob-backend/src/mem_backend.rs): the storage in memory, which fills the
--     interface (mem_storage).
--   * Pearl (bob-backend/src/pearl): Pearl/Storage is the interface of the pearl library, a parameter;
--     Pearl/Timestamps the start of a period (utils.rs), Pearl/Holder the struct Holder (holder.rs),
--     with the interleavings of several tasks in Pearl/Holder/Lifecycle, and Pearl/Group the struct
--     Group (group.rs): get, exist (exist_keys), put, delete (delete_key) and attach.
--   * Cluster (bob/src/cluster/quorum.rs, operations.rs): Cluster/World is the environment, the
--     other nodes and the backend here, which answers each call and may look at all that happened
--     before, in a build with or without debug assertions, overflow checks and debug messages;
--     Cluster/Tasks is waiting for spawned puts; Cluster/Put is put_at_least, put_aliens and
--     background_put of Quorum; Cluster/Get is Quorum::get; Cluster/Exist is Quorum::exist, with
--     the index maps of support_types.rs in Cluster/IndexMap; Cluster/Delete is Quorum::delete.
--     Cluster/Targets counts the targets of a key.
--   * Access (bob-access/src): the authenticator Basic. Access/Users is parse_users of the configured
--     users, Access/Guard the state DCredentialsResolveGuard of a node, Access/Basic the checks of
--     requests and the resolvers of host names. The hash, the decoding of hexadecimal text and the
--     answers of the resolver of host names are parameters. The debug assertion that credentials
--     stand under the name of their node is left out; it is a fact of the states reached.
--   * Examples: concrete inputs.
--
-- State is passed explicitly (Act). A panic is a value: none, or panicked. Numbers are natural
-- numbers; the fold that computes the id of a vdisk and the shared offset of the mapper have their
-- 64-bit wrap-around written out. Two loops are on fuel: the search for a start among the nodes,
-- which is none where the fuel runs out and for which one unit is enough, since the flags of the
-- connections do not change during one call, and the search for the start of a period, with the
-- seconds up to the time, of which each step takes at least one.
--
-- Concurrency: the puts that are spawned at once complete in an order that the environment
-- chooses. The two halves of a join! touch different parts of the world, and run one after the
-- other. A call to a node without a connection is a call that is answered with an error.
--
-- Not modelled: gRPC, REST and the programs, metrics and logs, the controllers of pearl disks,
-- the pearl library itself, the extraction of credentials from headers, node configurations, the
-- simple cluster. The parser of addresses is a parameter of the checks.
pub mod Prelude
pub mod Map
pub mod Error
pub mod Data
pub mod Node
pub mod Config
pub mod Mapper
pub mod Act
pub mod Options
pub mod Backend
pub mod MemBackend
pub mod Pearl
pub mod Cluster
pub mod Access
pub mod Examples
