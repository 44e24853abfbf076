-- ===== src/Samples.antt =====
-- A small store with concrete volumes, as the interface to cinderlib sees it, and requests for it: the
-- data of the tests.
pub mod Machines
pub mod Cluster
pub mod Configs
pub mod Single
use ember_csi.Base.{
  ℕ, String, ◌==◌, Bool, true, ◌&&◌, Option, none, some, List, [], ◌∷◌, if◌then◌else◌,
}
use ember_csi.Base.Int.{pos}
use ember_csi.Rpc.{ok, err, Exec, missing_resource}
use ember_csi.Cinder.{Volume, Snapshot, Connection, KeyValue, Cinder}
use ember_csi.Csi.{
  VolumeCapability, mount, single_node_writer, CapacityRange, CreateVolumeRequest, Servicer,
  SpecVersion,
}
use ember_csi.Node.Host.{FileType}

-- A node's mount tables, its files, and the commands that have run on it.
pub record Machine : Type 0 where
  pub mountinfo : List (List String)
  pub mounts : List (List String)
  pub files : List (String × FileType)
  pub file_system : String
  pub commands : List (List String)

abbrev pub empty_machine : Machine
empty_machine = record { mountinfo = []; mounts = []; files = []; file_system = ""; commands = [] }

pub record Store : Type 0 where
  pub volumes : List Volume
  pub snapshots : List Snapshot
  pub connections : List Connection
  pub values : List KeyValue
  pub runs : ℕ
  pub machine : Machine

abbrev pub gigabyte : ℕ
gigabyte = 1073741824

abbrev pub volume : String → String → String → Volume
volume id name status = record {
  id = id;
  name = name;
  status = status;
  size = pos 1073741824;
  extra_specs = none;
  source_volid = "";
  snapshot_id = "";
  created_at = 5;
}

abbrev pub snapshot : String → String → Snapshot
snapshot id volume_id = record {
  id = id;
  name = id;
  status = "available";
  volume_id = volume_id;
  volume_size = pos 1073741824;
  created_at = 6;
}

abbrev pub store : List Volume → List Snapshot → List Connection → List KeyValue → Store
store vs ss cs kvs = record {
  volumes = vs;
  snapshots = ss;
  connections = cs;
  values = kvs;
  runs = 0;
  machine = empty_machine;
}

abbrev matches : Option String → String → Bool
matches none x = true
matches (some y) x = y == x

abbrev find_volumes : Option String → Option String → List Volume → List Volume
find_volumes id name [] = []
find_volumes id name (v ∷ vs) =
    let rest = find_volumes id name vs in
    if matches id v.id && matches name v.name then v ∷ rest else rest

abbrev pub find_snapshots :
    Option String → Option String → Option String → List Snapshot → List Snapshot
find_snapshots id name vol [] = []
find_snapshots id name vol (x ∷ xs) =
    let rest = find_snapshots id name vol xs in
    if matches id x.id && (matches name x.name && matches vol x.volume_id) then x ∷ rest else rest

abbrev find_connections : String → List Connection → List Connection
find_connections vol [] = []
find_connections vol (x ∷ xs) =
    let rest = find_connections vol xs in if x.volume_id == vol then x ∷ rest else rest

abbrev find_values : String → List KeyValue → List KeyValue
find_values key [] = []
find_values key (x ∷ xs) = let rest = find_values key xs in if x.key == key then x ∷ rest else rest

abbrev without_volume : String → List Volume → List Volume
without_volume id [] = []
without_volume id (v ∷ vs) =
    let rest = without_volume id vs in if v.id == id then rest else v ∷ rest

abbrev without_snapshot : String → List Snapshot → List Snapshot
without_snapshot id [] = []
without_snapshot id (x ∷ xs) =
    let rest = without_snapshot id xs in if x.id == id then rest else x ∷ rest

abbrev without_connection : String → List Connection → List Connection
without_connection id [] = []
without_connection id (x ∷ xs) =
    let rest = without_connection id xs in if x.id == id then rest else x ∷ rest

abbrev first_volume : List Volume → Exec Store Volume
first_volume [] w = (err missing_resource, w)
first_volume (v ∷ vs) w = (ok v, w)

-- Every call does at once what its name says.
abbrev pub fake : Cinder Store
fake = record {
  get_volumes = λ id name backend w. (ok (find_volumes id name w.volumes), w);
  get_snapshots = λ id name vol w. (ok (find_snapshots id name vol w.snapshots), w);
  get_key_values = λ key w. (ok (find_values key w.values), w);
  set_key_value = λ kv w. (ok tt, record w { values = kv ∷ w.values });
  create_volume = λ size name params w.
      let v = volume name name "available" in (ok v, record w { volumes = v ∷ w.volumes });
  check_for_setup_error = λ w. (ok tt, w);
  stats = λ w. (ok tt, w);
  free_capacity = λ w. (ok (pos 1073741824), w);
  refresh = λ v w. first_volume (find_volumes (some v.id) none w.volumes) w;
  save = λ v w. (ok tt, record w { volumes = v ∷ without_volume v.id w.volumes });
  delete = λ v w. (ok tt, record w { volumes = without_volume v.id w.volumes });
  clone = λ v name size params w.
      let c = volume name name "available" in (ok c, record w { volumes = c ∷ w.volumes });
  connect = λ v connector host w.
      let c : Connection = record {
        id = host;
        volume_id = v.id;
        attached_host = host;
        attach_mode = "rw";
      } in
      (
        ok c,
        record w {
          connections = c ∷ w.connections;
          volumes = record v { status = "in-use" } ∷ without_volume v.id w.volumes;
        },
      );
  create_snapshot =
      λ v name w. let x = snapshot name v.id in (ok x, record w { snapshots = x ∷ w.snapshots });
  snapshots = λ v w. (ok (find_snapshots none none (some v.id) w.snapshots), w);
  connections = λ v w. (ok (find_connections v.id w.connections), w);
  snapshot_volume = λ x w. first_volume (find_volumes (some x.volume_id) none w.volumes) w;
  create_from_snapshot = λ x name params w.
      let v = volume name name "available" in (ok v, record w { volumes = v ∷ w.volumes });
  delete_snapshot = λ x w. (ok tt, record w { snapshots = without_snapshot x.id w.snapshots });
  save_connection =
      λ c w. (ok tt, record w { connections = c ∷ without_connection c.id w.connections });
  disconnect = λ c w. (ok tt, record w { connections = without_connection c.id w.connections });
  sleep = λ n w. (ok tt, w);
}

abbrev pub servicer : SpecVersion → Servicer
servicer v = record {
  version = v;
  backend = some "lvm";
  grpc_topologies = [];
  topology_hiera = none;
  supported_fs_types = "ext4" ∷ "xfs" ∷ [];
  fuel = 4;
}

abbrev pub ext4 : VolumeCapability
ext4 = record {
  access_type = mount (record { fs_type = "ext4"; mount_flags = [] });
  access_mode = single_node_writer;
}

abbrev pub one_gb : CapacityRange
one_gb = record { required_bytes = pos 1073741824; limit_bytes = pos 0 }

abbrev pub create_request : String → CreateVolumeRequest
create_request name = record {
  name = name;
  capacity_range = one_gb;
  volume_capabilities = ext4 ∷ [];
  parameters = [];
  volume_content_source = none;
  accessibility_requirements = none;
}
