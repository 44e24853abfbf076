-- ===== src/Resources/Persistence.antt =====
-- `CRDPersistence` of ember_csi/cl_crd.py, the metadata plugin of cinderlib, with the labels of its classes.
pub mod Volumes
pub mod Snapshots
use ember_csi.Base.{String, Bool, false, Option, List, [], ◌∷◌}
use ember_csi.Base.Dict.{Dict}
use ember_csi.Rpc.{Outcome, Exec, pure, ◌>>=◌, ◌>>◌}
use ember_csi.Cinder.{Volume, Snapshot, Connection, KeyValue}
use ember_csi.Resources.{CrdApi, Kind, get, set, delete}
use ember_csi.Resources.KeyValues.{get_key_value, set_key_value}

-- `volume.backend`: an object on controllers, a text on nodes.
pub data Backend : Type 0 where
  backend_object backend_text : String → Backend

-- `getattr(volume.backend, 'id', volume.backend)`
unfoldable pub backend_label : Backend → String
backend_label (backend_object id) = id
backend_label (backend_text name) = name

-- A volume with its backend.
pub record BackendVolume : Type 0 where
  pub volume : Volume
  pub backend : Backend

unfoldable pub volume_labels : BackendVolume → Dict String
volume_labels v =
    ("backend_name", backend_label v.backend)
    ∷ ("volume_id", v.volume.id)
    ∷ ("volume_name", v.volume.name)
    ∷ []

unfoldable pub snapshot_labels : Snapshot → Dict String
snapshot_labels s =
    ("snapshot_id", s.id) ∷ ("snapshot_name", s.name) ∷ ("volume_id", s.volume_id) ∷ []

unfoldable pub connection_labels : Connection → Dict String
connection_labels c = ("connection_id", c.id) ∷ ("volume_id", c.volume_id) ∷ []

-- `to_jsons` and `cinderlib.load` of one class of objects, whether `'id' in get_changed_fields(x)`, and
-- what the base class of the plugin does as an object is stored and deleted.
pub record BaseDriver (W R : Type 0) : Type 0 where
  pub to_jsons : R → String
  pub load : String → Outcome R
  pub has_new_id : R → Bool
  pub base_set : R → Exec W (Unit {0})
  pub base_delete : R → Exec W (Unit {0})

module _ {W : Type 0} (api : CrdApi W) (vols : BaseDriver W BackendVolume)
    (snaps : BaseDriver W Snapshot) (conns : BaseDriver W Connection)
    (base_delete_key_value : String → Exec W (Unit {0})) where
  unfoldable pub volume_class : Kind BackendVolume
  unfolding volume_labels
  volume_class = record {
    singular = "volume";
    get_labels = volume_labels;
    id = λ v. v.volume.id;
    to_jsons = vols.to_jsons;
    load = vols.load;
  }

  unfoldable pub snapshot_class : Kind Snapshot
  unfolding snapshot_labels
  snapshot_class = record {
    singular = "snapshot";
    get_labels = snapshot_labels;
    id = λ s. s.id;
    to_jsons = snaps.to_jsons;
    load = snaps.load;
  }

  unfoldable pub connection_class : Kind Connection
  unfolding connection_labels
  connection_class = record {
    singular = "connection";
    get_labels = connection_labels;
    id = λ c. c.id;
    to_jsons = conns.to_jsons;
    load = conns.load;
  }

  unfoldable pub get_volumes :
      Option String → Option String → Option String → Exec W (List (BackendVolume × Option String))
  get_volumes volume_id volume_name backend_name = get api volume_class (
      ("volume_id", volume_id) ∷ ("volume_name", volume_name) ∷ ("backend_name", backend_name) ∷ [])

  unfoldable pub get_snapshots :
      Option String → Option String → Option String → Exec W (List (Snapshot × Option String))
  get_snapshots snapshot_id snapshot_name volume_id = get api snapshot_class (
      ("snapshot_id", snapshot_id)
      ∷ ("snapshot_name", snapshot_name)
      ∷ ("volume_id", volume_id)
      ∷ [])

  unfoldable pub get_connections :
      Option String → Option String → Exec W (List (Connection × Option String))
  get_connections connection_id volume_id =
      get api connection_class (("connection_id", connection_id) ∷ ("volume_id", volume_id) ∷ [])

  unfoldable pub get_key_values : String → Exec W (List (KeyValue × Option String))
  get_key_values key = get_key_value api key

  -- `Class.set(x, 'id' in self.get_changed_fields(x))`, then the method of the base class.
  unfoldable pub store_object :
      {R : Type 0} → Kind R → BaseDriver W R → R × Option String → Exec W (R × Option String)
  store_object cls base (x, version) = do
    stored ← set api cls (x, version) (base.has_new_id x)
    base.base_set x
    pure stored

  unfoldable pub set_volume : BackendVolume × Option String → Exec W (BackendVolume × Option String)
  set_volume v = store_object volume_class vols v

  unfoldable pub set_snapshot : Snapshot × Option String → Exec W (Snapshot × Option String)
  set_snapshot s = store_object snapshot_class snaps s

  unfoldable pub set_connection : Connection × Option String → Exec W (Connection × Option String)
  set_connection c = store_object connection_class conns c

  unfoldable pub set_key : KeyValue × Option String → Exec W (KeyValue × Option String)
  set_key kv = set_key_value api kv false

  unfoldable pub delete_volume : BackendVolume → Exec W (Unit {0})
  delete_volume v = delete api v.volume.id >> vols.base_delete v

  unfoldable pub delete_snapshot : Snapshot → Exec W (Unit {0})
  delete_snapshot s = delete api s.id >> snaps.base_delete s

  unfoldable pub delete_connection : Connection → Exec W (Unit {0})
  delete_connection c = delete api c.id >> conns.base_delete c

  unfoldable pub delete_key_value : String → Exec W (Unit {0})
  delete_key_value key = delete api key >> base_delete_key_value key
