-- ===== src/Examples/Config.antt =====
-- The configuration at concrete values.
use ember_csi.Base.{ℕ, suc, String, ◌≢◌, codes, ◌≡◌, refl, true, false, none, some, [], ◌∷◌}
use ember_csi.Base.Dict.{Dict, lookup}
use ember_csi.Base.Int.{pos}
use ember_csi.Rpc.{Outcome, type_error, ok, err, attribute_error}
use ember_csi.Config.Backend.{
  Setting, text, json, get_key, get_drivers_map, rename, rename_all, set_driver, replace_driver,
  map_backend_config,
}
use ember_csi.Config.Names.{
  Text, is_prefix, is_part, all_chars, get_names, full_name, join_dot, project_name, matches_name,
  split_dots, drop_newline, domain_parts, is_label, is_top,
}
use ember_csi.Config.Names.Simple.{get_names_simple}
use ember_csi.Config.Version.{
  lstrip, rstrip, normal_spec, read_digits, read_number, is_tail, strict_version, supported,
  check_spec,
}
use ember_csi.Samples.Configs.{decoder, node_config, validated}
use ember_csi.Config.Validation.{Files, untar_file, create_default_dirs_files, validate}
use ember_csi.Config.Validation.Valid.{IsSound, validate-IsSound}
use ember_csi.Config.Environment.{Workers, no_int, int, check_settings, getenv, env_bool}
use ember_csi.Config.Topologies.{
  Topologies, decode_topologies, decode_node, complete_node, complete_by_mode, complete,
  set_topology_config,
}

nice_name : get_key "LVMVolumeDriver" ≡ "lvmvolume"
nice_name = refl

abbrev backend : Dict (Setting ℕ)
backend = ("driver", text "LVMVolume") ∷ ("multipath", json 1) ∷ []

mapped :
    map_backend_config (some (("LVMVolumeDriver", "cinder.lvm") ∷ [])) backend
    ≡ ok (("volume_driver", text "cinder.lvm") ∷ ("use_multipath_for_image_xfer", json 1) ∷ [])
unfolding map_backend_config rename_all rename replace_driver set_driver get_drivers_map
mapped = refl

-- A boolean of another name has the value of X_CSI_ABORT_DUPLICATES.
other_name :
    env_bool
      (("X_CSI_ABORT_DUPLICATES", "true") ∷ ("X_CSI_OTHER", "false") ∷ [])
      "X_CSI_OTHER"
      false
    ≡ true
unfolding env_bool getenv
other_name = refl

-- An invalid number of workers ends with AttributeError, and not with an exit code.
no_workers :
    check_settings (record {
      mode = "node";
      has_backend = false;
      default_mount_fs = "ext4";
      supported_fs_types = "ext4" ∷ [];
      workers = int (pos 0);
    })
    ≡ err (attribute_error "ERROR_WORKERS")
unfolding check_settings
no_workers = refl

abbrev at_node : Topologies decoder
at_node = record { topologies = some true ∷ []; node_topology = some false }

accepted_node : set_topology_config decoder "1.0.0" "node" "[{}]" "{}" ≡ ok at_node
unfolding set_topology_config complete complete_by_mode complete_node decode_topologies decode_node
accepted_node = refl

-- A plugin name of three letters, in the notation of the first versions.
abbrev lvm : Text
lvm = codes "lvm"

is_other : is_part (codes "ember-csi") lvm ≡ false
unfolding is_part is_prefix
is_other = refl

is_given : lvm ≢ []
is_given e = absurd (cc)

get_names_simple_example : get_names true lvm ≡ ok (codes "io.ember-csi.lvm", codes "lvm")
unfolding all_chars
get_names_simple_example =
    get_names_simple true lvm ((refl, refl), ((refl, refl), ((refl, refl), tt))) is_given is_other

-- Files that only count what is made.
abbrev files : Files ℕ
files = record {
  open_archive = λ a n. (ok [], n);
  extract_all = λ ms n. (ok tt, n);
  make_dirs = λ p n. (ok tt, suc n);
  touch = λ p n. (ok tt, suc n);
}

abbrev as_workers : Setting ℕ → Workers
as_workers (text t) = no_int
as_workers (json n) = int (pos n)

abbrev as_name : ℕ → Outcome String
as_name n = err type_error

-- The three directories and the file of the known hosts are made.
accepted :
    validate files decoder none as_workers as_name "/var/vols" node_config 0 ≡ (ok validated, 4)
unfolding validate untar_file create_default_dirs_files check_settings lookup map_backend_config
    set_topology_config check_spec normal_spec lstrip rstrip strict_version read_number read_digits
    is_tail supported get_names full_name join_dot project_name is_part is_prefix matches_name
    drop_newline split_dots domain_parts is_label is_top all_chars complete complete_by_mode
    complete_node decode_topologies decode_node
accepted = refl

validate-IsSound_example :
    IsSound files decoder none as_workers as_name "/var/vols" node_config validated
validate-IsSound_example =
    validate-IsSound files decoder none as_workers as_name "/var/vols" node_config validated 0 4
      accepted
