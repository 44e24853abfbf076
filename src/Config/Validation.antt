-- ===== src/Config/Validation.antt =====
-- `Config.validate` of ember_csi/config.py, with `_untar_file` and `_create_default_dirs_files`.
pub mod Valid
use ember_csi.Base.{
  ℕ, String, truthy, starts_with, Bool, true, false, not, Option, none, some, List, [], ◌∷◌, codes,
  if◌then◌else◌,
}
use ember_csi.Base.Dict
use ember_csi.Base.Dict.{Dict}
use ember_csi.Rpc.{
  exited, type_error, key_error, Outcome, ok, err, Exec, pure, raise, try_except, ◌>>=◌, ◌>>◌,
}
use ember_csi.Csi.{SpecVersion, v0_2_0, v0_3_0, v1_0_0}
use ember_csi.Node.Host.{join_path}
use ember_csi.Node.Mounts.{lift}
use ember_csi.Config.Backend.{Setting, text, json, map_backend_config}
use ember_csi.Config.Environment.{Settings, Workers, check_settings}
use ember_csi.Config.Names.{Text, get_names}
use ember_csi.Config.Reading.{Config}
use ember_csi.Config.Topologies.{Decoder, Topologies, set_topology_config}
use ember_csi.Config.Version.{check_spec, is_reverse}

-- A member of an archive.
pub record Member : Type 0 where
  pub member_name : String
  pub is_device : Bool

-- The files: an archive's members, their extraction, and the creation of files and directories.
-- `make_dirs` is `os.makedirs` but for its error on a directory that exists, which is caught.
pub record Files (W : Type 0) : Type 0 where
  pub open_archive : String → Exec W (List Member)
  pub extract_all : List Member → Exec W (Unit {0})
  pub make_dirs : String → Exec W (Unit {0})
  pub touch : String → Exec W (Unit {0})

-- The generator `check_files`, which leaves out devices.
unfoldable pub check_files : List Member → List Member
check_files [] = []
check_files (m ∷ ms) = let rest = check_files ms in if m.is_device then rest else m ∷ rest

-- `constants.ERROR_TAR`
abbrev pub error_tar : ℕ
error_tar = 4

-- The texts of a version, as `constants.SUPPORTED_SPEC_VERSIONS` has them.
abbrev pub spec_text : SpecVersion → String
spec_text v0_2_0 = "0.2.0"
spec_text v0_3_0 = "0.3.0"
spec_text v1_0_0 = "1.0.0"

-- What the validation leaves.
pub record Validated (J : Type 0) (d : Decoder) : Type 0 where
  pub csi_spec : SpecVersion
  pub name : Text
  pub project_name : Text
  pub backend_config : Dict (Setting J)
  pub topologies : Topologies d

abbrev pub text_or_type_error : {W J : Type 0} → Option (Setting J) → Exec W String
text_or_type_error none = raise key_error
text_or_type_error (some (text t)) = pure t
text_or_type_error (some (json j)) = raise type_error

abbrev pub is_given {ℓ} : {A : Type ℓ} → List A → Bool
is_given [] = false
is_given (_ ∷ _) = true

-- `drivers` is what `cinderlib.list_supported_drivers()` gives, `as_workers` reads the number of
-- workers, `as_name` reads a plugin name that is not a text (an empty list counts as an empty name,
-- other values raise), and `vol_binds_dir` is `defaults.VOL_BINDS_DIR`, in which the path of the state is replaced
-- by then.
module _ {W J : Type 0} (files : Files W) (d : Decoder) (drivers : Option (List (String × String)))
    (as_workers : Setting J → Workers) (as_name : J → Outcome String) (vol_binds_dir : String) where
  unfoldable pub untar_file : String → Exec W (Unit {0})
  untar_file archive =
      if truthy archive
      then try_except
          (files.open_archive archive >>= λ members. files.extract_all (check_files members))
          (raise (exited error_tar))
      else pure tt

  abbrev pub name_text : Setting J → Outcome String
  name_text (text t) = ok t
  name_text (json j) = as_name j

  -- `config.get('ssh_hosts_key_file', default_hosts)`
  abbrev hosts_file : String → Option (Setting J) → Exec W String
  hosts_file state_path none = pure (join_path state_path "ssh_known_hosts")
  hosts_file state_path (some v) = text_or_type_error (some v)

  unfoldable pub create_default_dirs_files : Dict (Setting J) → Exec W (Unit {0})
  unfolding Dict.lookup
  create_default_dirs_files ember = do
    state_path ← text_or_type_error (Dict.lookup "state_path" ember)
    files.make_dirs state_path
    files.make_dirs vol_binds_dir
    locks ← text_or_type_error (Dict.lookup "file_locks_path" ember)
    files.make_dirs locks
    hosts ← hosts_file state_path (Dict.lookup "ssh_hosts_key_file" ember)
    files.touch hosts

  abbrev pub settings_of : Config J → Settings
  settings_of c = record {
    mode = c.mode;
    has_backend = is_given c.backend_config;
    default_mount_fs = c.default_mount_fs;
    supported_fs_types = c.supported_fs_types;
    workers = as_workers c.workers;
  }

  unfoldable pub validate : Config J → Exec W (Validated J d)
  validate c = do
    untar_file c.system_files
    lift (check_settings (settings_of c))
    spec ← lift (check_spec (codes c.csi_spec))
    plugin_name ← lift (name_text c.plugin_name)
    (name, project) ← lift (get_names (is_reverse spec) (codes plugin_name))
    backend ← lift (map_backend_config drivers c.backend_config)
    topologies ← lift (set_topology_config d (spec_text spec) c.mode c.topologies c.node_topology)
    create_default_dirs_files c.ember_config
    pure (record {
      csi_spec = spec;
      name = name;
      project_name = project;
      backend_config = backend;
      topologies = topologies;
    })
