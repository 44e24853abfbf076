-- ===== src/Samples/Machines.antt =====
-- A node of the small store: a machine on which every command succeeds and is only recorded.
use ember_csi.Base.{String, ◌==◌, false, List, [], ◌∷◌, if◌then◌else◌}
use ember_csi.Rpc.{ok, err, os_error, Outcome}
use ember_csi.Node.Host.{FileType, directory, regular, Host, NodeConf}
use ember_csi.Samples.{Machine, Store}

abbrev find_file : String → List (String × FileType) → Outcome FileType
find_file path [] = err os_error
find_file path ((p, t) ∷ fs) = let rest = find_file path fs in if p == path then ok t else rest

-- `lsblk` prints the file system of the machine's device, every other command prints nothing.
abbrev printed : List String → Machine → String
printed [] m = ""
printed (program ∷ args) m = if program == "lsblk" then m.file_system else ""

abbrev pub add_command : List String → Store → Store
add_command cmd w = record w { machine = record w.machine { commands = cmd ∷ w.machine.commands } }

abbrev pub add_file : String → FileType → Store → Store
add_file path t w = record w { machine = record w.machine { files = (path, t) ∷ w.machine.files } }

abbrev pub node_host : Host Store
node_host = record {
  mountinfo = λ w. (ok w.machine.mountinfo, w);
  mounts = λ w. (ok w.machine.mounts, w);
  stat_file = λ path w. (find_file path w.machine.files, w);
  stat_parent = λ path w. (ok directory, w);
  touch = λ path w. (ok tt, add_file path regular w);
  mkdir = λ path w. (ok tt, add_file path directory w);
  isfile = λ path w. (ok false, w);
  remove_file = λ path w. (ok tt, w);
  rmdir = λ path w. (ok tt, w);
  execute = λ cmd w. (ok (printed cmd w.machine), add_command cmd w);
  sleep = λ n w. (ok tt, w);
  attach = λ conn w.
      (ok (record { use_multipath = false; path = "/dev/sdb" }), add_command ("attach" ∷ []) w);
  detach = λ conn w. (ok tt, add_command ("detach" ∷ []) w);
}

abbrev pub node_conf : NodeConf
node_conf = record {
  containerized = false;
  vol_binds_dir = "/var/lib/ember-csi/vols";
  default_mount_fs = "ext4";
}

-- A line of the mount table, by the root of the mount, the mount point, the options and the device.
abbrev pub mount_line : String → String → String → String → List String
mount_line root target options device =
    "1" ∷ "2" ∷ "0:1" ∷ root ∷ target ∷ options ∷ "shared:1" ∷ "-" ∷ "ext4" ∷ device ∷ []

abbrev pub with_machine : Machine → Store → Store
with_machine m w = record w { machine = m }
