-- ===== src/Samples/Configs.antt =====
-- A configuration of a node, and a decoder of JSON that knows two texts.
use ember_csi.Base.{ℕ, ◌==◌, codes, Bool, true, false, none, some, [], ◌∷◌, if◌then◌else◌}
use ember_csi.Csi.{v1_0_0}
use ember_csi.Config.Backend.{text, json}
use ember_csi.Config.Reading.{Config}
use ember_csi.Config.Topologies.{Decoder}
use ember_csi.Config.Validation.{Validated}

-- A decoder that knows two texts: a topology and a list of one topology.
abbrev pub decoder : Decoder
decoder = record {
  Json = Bool;
  decode = λ t. if t == "[{}]" then some true else if t == "{}" then some false else none;
  as_list = λ j. if j then some (true ∷ []) else none;
  is_true = λ j. true;
}

-- The configuration of a node that has no backend.
abbrev pub node_config : Config ℕ
node_config = record {
  csi_spec = " v1.0 ";
  abort_duplicates = false;
  debug_mode = "";
  system_files = "";
  endpoint = "[::]:50051";
  mode = "node";
  storage_nw_ip = "127.0.0.1";
  persistence_config = [];
  backend_config = [];
  node_id = "host";
  default_mount_fs = "ext4";
  node_topology = "";
  topologies = "";
  supported_fs_types = "xfs" ∷ "ext4" ∷ [];
  request_multipath = json 0;
  workers = json 30;
  plugin_name = text "lvm";
  enable_probe = json 0;
  slow_operations = json 1;
  ember_config = ("state_path", text "/var") ∷ ("file_locks_path", text "/var/locks") ∷ [];
}

abbrev pub validated : Validated ℕ decoder
validated = record {
  csi_spec = v1_0_0;
  name = codes "lvm.ember-csi.io";
  project_name = codes "lvm";
  backend_config = [];
  topologies = record { topologies = []; node_topology = none };
}
