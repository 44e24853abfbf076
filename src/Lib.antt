-- ===== src/Lib.antt =====
-- Ember-CSI: a CSI (Container Storage Interface) plugin that serves volumes of the Cinder drivers to
-- container orchestrators. The files of this library model the servicers of ember_csi/base.py and the
-- three versions of them in ember_csi/v0_2_0/csi.py, ember_csi/v0_3_0/csi.py and ember_csi/v1_0_0/csi.py,
-- with the helpers of ember_csi/common.py, the configuration of ember_csi/config.py and the metadata
-- store of ember_csi/cl_crd.py.
--
-- How the parts interact: `Config.validate` settles the configuration, with which a servicer is
-- constructed. A gRPC request passes the decorators of ember_csi/common.py (`debuggable`, `logrpc`,
-- `require`, `Worker.unique`) and reaches a method of a servicer, which reads and changes volumes, snapshots and
-- connections through cinderlib, and aborts by an exception that carries a status code. Cinderlib keeps
-- its objects through `CRDPersistence` in custom resources of Kubernetes.
--
-- - Rpc: an action on a state that returns or raises, the decorator `require`, and rules for chains
--   and for what they change (Inversion, Effects);
--   the decorators `logrpc` (Logging) and `debuggable` (Debugging), and a handler with all of them
--   (Served).
-- - Cinder: what the servicers use of cinderlib, a parameter of the model (it is not part of the
--   repository): records for its objects, and a record `Cinder` of its calls over an unknown state.
--   Laws states what the catalogue of volumes relies on in it.
-- - Csi: the messages of csi_proto/*.proto that the servicers read and return, and the servicer object.
-- - Identity: IdentityBase of ember_csi/base.py (`_validate_capabilities`, `_get_vol`, `Probe`, `sudo`).
-- - Topology: TopologyBase of ember_csi/base.py, the hierarchy of configured topologies and its checks.
-- - Snapshot: SnapshotBase of ember_csi/base.py: the lookup, and the three RPCs on snapshots; Handlers.Filtered
--   runs the listing over the metadata of Resources.
-- - Worker: `Worker.unique` of ember_csi/common.py, as a step relation over the threads of the server.
-- - Resources: `CRD` of ember_csi/cl_crd.py, objects kept in Kubernetes custom resources, the class
--   `KeyValue` (KeyValues), `CRDPersistence` (Persistence) and the definitions (Setup). The API of
--   Kubernetes is a parameter, and Laws states what the code relies on in it.
-- - Workarounds: ember_csi/workarounds.py, the patches of gRPC, eventlet and the Kubernetes client, with those
--   libraries as parameters; the state is what the replaced `current_thread` keeps.
-- - Drivers: ember_csi/generate_drivers_map.py, the list of the supported drivers.
-- - Startup: the commands ember_csi/ember_csi.py and ember_csi/liveness.py, with gRPC as a parameter.
-- - Plugin: the constructors of the servicers, and the answers that are built there.
-- - Config: `Config` of ember_csi/config.py: the constructor (Reading) with the readers of the environment
--   (Environment) and the defaults (Defaults), and `validate` (Validation) with the version (Version), the
--   names (Names), the backend's options (Backend) and the topologies (Topologies). The decoder of JSON
--   and the files are parameters.
-- - Node: NodeBase of ember_csi/base.py, one module for each RPC (Stage, Unstage, Publish), the readers of
--   the mount tables (Mounts), what a node publishes of itself (Info), the checks of paths (Paths), and Host, the machine as a parameter.
-- - Controller: ControllerBase of ember_csi/base.py, one module for each RPC, with the overridden
--   methods of the three versions chosen by `SpecVersion`. Controller.Catalogue looks at the volumes that
--   `CreateVolume` and `DeleteVolume` keep, by their ids, with cinderlib by its laws; there the requests are
--   served one after another, and no other process changes the metadata (the threads of one server are
--   modelled in Worker).
-- - Samples and Examples: a small concrete store, tests, and the theorems at concrete inputs.
--
-- Conventions. Sizes in GB, which are floats in the source, are counted in units of 2^-30 GB, so that
-- the conversion from bytes is exact. Dates count microseconds; the floats between a date and its page
-- token are a parameter with named hypotheses. Loops over collections are recursions on lists. The
-- server's loop takes a number of days as fuel, after which it still runs (`diverged`). The loop that polls a volume and the walk through the topology hierarchy take fuel: polling has no bound in the
-- source, and running out of fuel is the fault `diverged`; the walk is given one round for each segment
-- and one more, which is shown to be enough. Log messages are left out, and the texts of some error
-- details are shortened.
--
-- Not modelled: the connection to Kubernetes (the class K8sConnection) and the fake database of
-- `CRDPersistence`, the remote debugger (ember_csi/rpdb.py, a copy of a third-party module), and the generated
-- protocol modules.
pub mod Base
pub mod Rpc
pub mod Worker
pub mod Workarounds
pub mod Drivers
pub mod Resources
pub mod Config
pub mod Cinder
pub mod Csi
pub mod Identity
pub mod Topology
pub mod Snapshot
pub mod Node
pub mod Controller
pub mod Plugin
pub mod Startup
pub mod Samples
pub mod Examples
