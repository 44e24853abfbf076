-- ===== src/Csi.antt =====
-- The messages of the CSI protocol (csi_proto/*.proto) that the servicers read and return, as the
-- generated modules ember_csi/v*/csi_pb2.py carry them: a field that is not set has its default.
-- Also the servicer object: the attributes of `self` and of `CONF` that the handlers read.
use ember_csi.Base.{ℕ, String, Bool, Option, List}
use ember_csi.Base.Dict.{Dict}
use ember_csi.Base.Int.{ℤ}

pub data AccessMode : Type 0 where
  unknown single_node_writer single_node_reader_only multi_node_reader_only : AccessMode
  multi_node_single_writer multi_node_multi_writer : AccessMode

pub record MountVolume : Type 0 where
  pub fs_type : String
  pub mount_flags : List String

-- `oneof access_type { block; mount }`
pub data AccessType : Type 0 where
  unset block : AccessType
  mount : MountVolume → AccessType

pub record VolumeCapability : Type 0 where
  pub access_type : AccessType
  pub access_mode : AccessMode

pub record CapacityRange : Type 0 where
  pub required_bytes : ℤ
  pub limit_bytes : ℤ

-- `Topology.segments`
abbrev pub Topology : Type 0
Topology = Dict String

pub record TopologyRequirement : Type 0 where
  pub requisite : List Topology
  pub preferred : List Topology

-- `oneof type { snapshot; volume }` of `VolumeContentSource`; spec v0.3.0 has only the snapshot.
pub data ContentSource : Type 0 where
  from_snapshot from_volume : String → ContentSource

pub record CreateVolumeRequest : Type 0 where
  pub name : String
  pub capacity_range : CapacityRange
  pub volume_capabilities : List VolumeCapability
  pub parameters : Dict String
  pub volume_content_source : Option ContentSource
  pub accessibility_requirements : Option TopologyRequirement

pub record DeleteVolumeRequest : Type 0 where
  pub volume_id : String

pub record PublishRequest : Type 0 where
  pub volume_id : String
  pub node_id : String
  pub volume_capability : Option VolumeCapability
  pub readonly : Bool

pub record UnpublishRequest : Type 0 where
  pub volume_id : String
  pub node_id : String

pub record ListRequest : Type 0 where
  pub max_entries : ℤ
  pub starting_token : String

pub record ListSnapshotsRequest : Type 0 where
  pub list : ListRequest
  pub source_volume_id : String
  pub snapshot_id : String

pub record CapacityRequest : Type 0 where
  pub volume_capabilities : List VolumeCapability
  pub accessible_topology : Option Topology

-- The fields of the three versions: `volume_attributes` of v0.2.0 and v0.3.0, `accessible_topology` of
-- v0.3.0, `volume_context` and `parameters` of v1.0.0. A field that a version lacks is empty.
pub record ValidateRequest : Type 0 where
  pub volume_id : String
  pub volume_capabilities : List VolumeCapability
  pub volume_attributes : Dict String
  pub accessible_topology : List Topology
  pub volume_context : Dict String
  pub parameters : Dict String

pub record Confirmed : Type 0 where
  pub volume_context : Dict String
  pub volume_capabilities : List VolumeCapability
  pub parameters : Dict String

-- `supported` of v0.2.0 and v0.3.0, `confirmed` of v1.0.0, and the message of all.
pub record ValidateResponse : Type 0 where
  pub supported : Bool
  pub confirmed : Option Confirmed
  pub message : String

pub record CreateSnapshotRequest : Type 0 where
  pub name : String
  pub source_volume_id : String

pub record DeleteSnapshotRequest : Type 0 where
  pub snapshot_id : String

-- `Volume`: `volume_id` and `volume_context` are `id` and `attributes` before spec v1.0.0.
pub record VolumeMessage : Type 0 where
  pub capacity_bytes : ℤ
  pub volume_id : String
  pub volume_context : Option (Dict String)
  pub content_source : Option ContentSource
  pub accessible_topology : List Topology

pub record ListResponse {ℓ} (A : Type ℓ) : Type ℓ where
  pub entries : List A
  pub next_token : Option String

-- Spec v1.0.0 stamps a snapshot with a timestamp of its date, v0.3.0 with nanoseconds.
pub data Stamp : Type 0 where
  timestamp in_nanoseconds : ℕ → Stamp

pub record SnapshotMessage : Type 0 where
  pub snapshot_id : String
  pub source_volume_id : String
  pub creation_time : Stamp
  pub ready_to_use : Bool

pub data SpecVersion : Type 0 where
  v0_2_0 v0_3_0 v1_0_0 : SpecVersion

-- A level of `TOPOLOGY_HIERA`: `{segment_name: {segment_value: level}}`, in insertion order.
mutual
  pub data Level : Type 0 where
    no_segments : Level
    segment : String → Values → Level → Level

  pub data Values : Type 0 where
    no_values : Values
    value : String → Level → Values → Values

-- `self`: the class (by its specification's version), `self.backend.id`, the topologies, and
-- `CONF.SUPPORTED_FS_TYPES`. `fuel` bounds the rounds of the loops that poll a volume.
pub record Servicer : Type 0 where
  pub version : SpecVersion
  pub backend : Option String
  pub grpc_topologies : List Topology
  pub topology_hiera : Option Level
  pub supported_fs_types : List String
  pub fuel : ℕ
