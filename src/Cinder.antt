-- ===== src/Cinder.antt =====
-- The interface to cinderlib, which is not part of this repository: the attributes of its objects
-- that the servicers read, and its calls as actions on an unknown state `W`.
pub mod Laws
use ember_csi.Base.{ℕ, String, Option, List}
use ember_csi.Base.Dict.{Dict}
use ember_csi.Base.Int.{ℤ}
use ember_csi.Rpc.{Exec}

-- Sizes are in units of 2^-30 GB, so that the division of a byte count by `constants.GB` is exact;
-- times count from the epoch. `extra_specs` is `volume_type.extra_specs` if there is a type, and an
-- empty text stands for a source that is `None`.
pub record Volume : Type 0 where
  pub id : String
  pub name : String
  pub status : String
  pub size : ℤ
  pub extra_specs : Option (Dict String)
  pub source_volid : String
  pub snapshot_id : String
  pub created_at : ℕ

pub record Snapshot : Type 0 where
  pub id : String
  pub name : String
  pub status : String
  pub volume_id : String
  pub volume_size : ℤ
  pub created_at : ℕ

pub record Connection : Type 0 where
  pub id : String
  pub volume_id : String
  pub attached_host : String
  pub attach_mode : String

-- `extra_specs` is a dict, unless a parameter of that very name has replaced it by a text.
pub data Specs : Type 0 where
  specs : Dict String → Specs
  text : String → Specs

-- The keyword arguments of `create_volume` and `clone` that come from the request.
pub record VolumeParams : Type 0 where
  pub qos_specs : Dict String
  pub extra_specs : Specs
  pub rest : Dict String

pub record KeyValue : Type 0 where
  pub key : String
  pub value : String

pub record Cinder (W : Type 0) : Type 0 where
  -- `Backend.persistence`; a missing filter is `none`.
  pub get_volumes : Option String → Option String → Option String → Exec W (List Volume)
  pub get_snapshots : Option String → Option String → Option String → Exec W (List Snapshot)
  pub get_key_values : String → Exec W (List KeyValue)
  pub set_key_value : KeyValue → Exec W (Unit {0})
  -- `Backend`
  pub create_volume : ℤ → String → VolumeParams → Exec W Volume
  pub check_for_setup_error : Exec W (Unit {0})
  pub stats : Exec W (Unit {0})
  -- `free_capacity_gb`, of the first pool if there are pools, in the unit of sizes.
  pub free_capacity : Exec W ℤ
  -- `Volume`
  pub refresh : Volume → Exec W Volume
  pub save : Volume → Exec W (Unit {0})
  pub delete : Volume → Exec W (Unit {0})
  pub clone : Volume → String → ℤ → VolumeParams → Exec W Volume
  pub connect : Volume → Dict String → String → Exec W Connection
  pub create_snapshot : Volume → String → Exec W Snapshot
  pub snapshots : Volume → Exec W (List Snapshot)
  pub connections : Volume → Exec W (List Connection)
  -- `Snapshot`
  pub snapshot_volume : Snapshot → Exec W Volume
  pub create_from_snapshot : Snapshot → String → VolumeParams → Exec W Volume
  pub delete_snapshot : Snapshot → Exec W (Unit {0})
  -- `Connection`
  pub save_connection : Connection → Exec W (Unit {0})
  pub disconnect : Connection → Exec W (Unit {0})
  -- `time.sleep`, across which other threads and nodes act on the same state.
  pub sleep : ℕ → Exec W (Unit {0})
