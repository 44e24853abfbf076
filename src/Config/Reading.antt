-- ===== src/Config/Reading.antt =====
-- `Config.__init__` of ember_csi/config.py, with `_get_system_fs_types` and `_set_logging`.
use ember_csi.Base.{
  ℕ, zero, suc, String, Bool, false, Option, none, some, List, [], ◌∷◌, if◌then◌else◌,
}
use ember_csi.Base.Case.{lower, upper}
use ember_csi.Base.Dict
use ember_csi.Base.Dict.{Dict}
use ember_csi.Rpc.{key_error, Outcome, ok, err}
use ember_csi.Config.Backend.{Setting, text}
use ember_csi.Config.Environment.{env_string, env_bool, env_json}
use ember_csi.Config.Defaults.{get_ember_cfg}

-- `fst[start:]`, where every file starts with '/sbin/mkfs.'.
abbrev pub drop_chars : ℕ → String → String
drop_chars n String.[] = ""
drop_chars zero (String.◌∷◌ c s) = String.◌∷◌ c s
drop_chars (suc n) (String.◌∷◌ c s) = drop_chars n s

unfoldable pub fs_types_of : List String → List String
fs_types_of [] = []
fs_types_of (f ∷ fs) = drop_chars 11 f ∷ fs_types_of fs

-- What is read besides the environment: the files that `glob` finds, the host's names, the texts of
-- `defaults` for the logging options, the decoder of JSON, some of its values, and the truth of a value.
pub record Surroundings (J : Type 0) : Type 0 where
  pub mkfs_files : List String
  pub host_ip : String
  pub fqdn : String
  pub logging_format : Setting J
  pub log_levels : Setting J
  pub debug_log_levels : Setting J
  pub json_false : Setting J
  pub json_true : Setting J
  pub default_workers : Setting J
  pub loads : String → Option (Dict (Setting J))
  pub is_true : Setting J → Bool

pub record Config (J : Type 0) : Type 0 where
  pub csi_spec : String
  pub abort_duplicates : Bool
  pub debug_mode : String
  pub system_files : String
  pub endpoint : String
  pub mode : String
  pub storage_nw_ip : String
  pub persistence_config : Dict (Setting J)
  pub backend_config : Dict (Setting J)
  pub node_id : String
  pub default_mount_fs : String
  pub node_topology : String
  pub topologies : String
  pub supported_fs_types : List String
  pub request_multipath : Setting J
  pub workers : Setting J
  pub plugin_name : Setting J
  pub enable_probe : Setting J
  pub slow_operations : Setting J
  pub ember_config : Dict (Setting J)

module _ {J : Type 0} (x : Surroundings J) where
  -- `defaults.PERSISTENCE_CFG` and `defaults.EMBER_CFG`
  abbrev pub persistence_cfg : Dict (Setting J)
  persistence_cfg = ("storage", text "crd") ∷ ("namespace", text "default") ∷ []

  abbrev pub ember_cfg : Dict (Setting J)
  ember_cfg =
      ("project_id", text "ember-csi.io")
      ∷ ("user_id", text "ember-csi.io")
      ∷ ("plugin_name", text "")
      ∷ ("root_helper", text "sudo")
      ∷ ("request_multipath", x.json_false)
      ∷ ("file_locks_path", text "$state_path/locks")
      ∷ ("state_path", text "/var/lib/ember-csi")
      ∷ ("enable_probe", x.json_false)
      ∷ ("grpc_workers", x.default_workers)
      ∷ ("slow_operations", x.json_true)
      ∷ []

  -- `config.get('debug')`
  abbrev is_debug : Option (Setting J) → Bool
  is_debug none = false
  is_debug (some v) = x.is_true v

  unfoldable pub set_logging : Dict (Setting J) → Dict (Setting J)
  unfolding Dict.lookup Dict.set_default
  set_logging config =
      let formatted = Dict.set_default "logging_context_format_string" x.logging_format config in
      let enabled = Dict.set_default "disable_logs" x.json_false formatted in
      Dict.set_default "default_log_levels"
        (if is_debug (Dict.lookup "debug" enabled) then x.debug_log_levels else x.log_levels)
        enabled

  -- `d.pop(key, default)`, and `d.pop(key)` and `d[key]`, which want the key.
  abbrev pub value_or : Setting J → Option (Setting J) → Setting J
  value_or default none = default
  value_or default (some v) = v

  abbrev pub required : Option (Setting J) → Outcome (Setting J)
  required none = err key_error
  required (some v) = ok v

  -- What is left of the configuration once the options of the plugin are taken out.
  unfoldable pub popped : Dict (Setting J) → Dict (Setting J)
  unfolding Dict.erase
  popped config = Dict.erase "slow_operations" (
      Dict.erase "enable_probe" (Dict.erase "grpc_workers" (Dict.erase "request_multipath" config)))

  unfoldable pub config_of :
      Dict String
      → Dict (Setting J)
      → Dict (Setting J)
      → Dict (Setting J)
      → Setting J
      → Setting J
      → Config J
  unfolding Dict.lookup
  config_of environ persistence backend ember plugin_name slow_operations = record {
    csi_spec = env_string environ "X_CSI_SPEC_VERSION" "0.2.0";
    abort_duplicates = env_bool environ "X_CSI_ABORT_DUPLICATES" false;
    debug_mode = upper (env_string environ "X_CSI_DEBUG_MODE" "");
    system_files = env_string environ "X_CSI_SYSTEM_FILES" "";
    endpoint = env_string environ "CSI_ENDPOINT" "[::]:50051";
    mode = lower (env_string environ "CSI_MODE" "all");
    storage_nw_ip = env_string environ "X_CSI_STORAGE_NW_IP" x.host_ip;
    persistence_config = persistence;
    backend_config = backend;
    node_id = env_string environ "X_CSI_NODE_ID" x.fqdn;
    default_mount_fs = env_string environ "X_CSI_DEFAULT_MOUNT_FS" "ext4";
    node_topology = env_string environ "X_CSI_NODE_TOPOLOGY" "";
    topologies = env_string environ "X_CSI_TOPOLOGIES" "";
    supported_fs_types = fs_types_of x.mkfs_files;
    request_multipath = value_or x.json_false (Dict.lookup "request_multipath" ember);
    workers = value_or x.default_workers (Dict.lookup "grpc_workers" ember);
    plugin_name = plugin_name;
    enable_probe = value_or x.json_false (Dict.lookup "enable_probe" ember);
    slow_operations = slow_operations;
    ember_config = set_logging (popped ember);
  }

  abbrev pub and_then {ℓ} : {A B : Type ℓ} → Outcome A → (A → Outcome B) → Outcome B
  and_then (ok a) f = f a
  and_then (err e) f = err e

  -- A missing backend is the empty dict.
  unfoldable pub read_config : Dict String → Outcome (Config J)
  unfolding Dict.lookup
  read_config environ =
      and_then (env_json x.loads environ "X_CSI_PERSISTENCE_CONFIG" persistence_cfg) λ persistence.
        and_then (env_json x.loads environ "X_CSI_BACKEND_CONFIG" []) λ backend.
          and_then (env_json x.loads environ "X_CSI_EMBER_CONFIG" ember_cfg) λ given.
            and_then (get_ember_cfg ember_cfg given) λ ember.
              and_then (required (Dict.lookup "plugin_name" ember)) λ plugin_name.
                and_then (required (Dict.lookup "slow_operations" ember))
                  λ slow. ok (config_of environ persistence backend ember plugin_name slow)
