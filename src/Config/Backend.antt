-- ===== src/Config/Backend.antt =====
-- `Config._map_backend_config` and `Config._get_drivers_map` of ember_csi/config.py.
pub mod Renames
use Prim.Native.Char.{Char, code}
use ember_csi.Base.{
  ℕ, zero, suc, ◌-◌, String, ◌==◌, ◌&&◌, truthy, leb, Bool, true, false, Option, none, some, List,
  [], ◌∷◌, if◌then◌else◌,
}
use ember_csi.Base.Case.{lower}
use ember_csi.Base.Dict
use ember_csi.Base.Dict.{Dict}
use ember_csi.Rpc.{attribute_error, Outcome, ok, err}

-- `key[:-6]` where the key ends in 'driver'.
abbrev pub drop_driver : String → String
drop_driver String.[] = ""
drop_driver (String.◌∷◌ c s) =
    let rest = drop_driver s in if String.◌∷◌ c s == "driver" then "" else String.◌∷◌ c rest

abbrev pub get_key : String → String
get_key driver_name = drop_driver (lower driver_name)

-- The comprehension, in which the last of equal keys stays. `drivers` is what
-- `cinderlib.list_supported_drivers()` gives of each driver, its class name and namespace, or `none`
-- where it raises.
abbrev collect : Dict String → List (String × String) → Dict String
collect mapping [] = mapping
collect mapping ((name, class_fqn) ∷ ds) = collect (Dict.insert (get_key name) class_fqn mapping) ds

unfoldable pub get_drivers_map : Option (List (String × String)) → Dict String
get_drivers_map none = []
get_drivers_map (some drivers) = collect [] drivers

-- A value of the backend's configuration: a text, or another value of JSON.
pub data Setting (J : Type 0) : Type 0 where
  text : String → Setting J
  json : J → Setting J

-- `constants.BACKEND_KEY_MAPPINGS`
abbrev pub backend_key_mappings : List (String × String)
backend_key_mappings =
    ("driver", "volume_driver")
    ∷ ("multipath", "use_multipath_for_image_xfer")
    ∷ ("name", "volume_backend_name")
    ∷ []

module _ {J : Type 0} where
  abbrev move_to : String → String → Option (Setting J) → Dict (Setting J) → Dict (Setting J)
  move_to key replacement none config = config
  move_to key replacement (some v) config = Dict.set_default replacement v (Dict.erase key config)

  -- `if key in config: config.setdefault(replacement, config.pop(key))`
  unfoldable pub rename : String → String → Dict (Setting J) → Dict (Setting J)
  unfolding Dict.lookup Dict.erase Dict.set_default
  rename key replacement config = move_to key replacement (Dict.lookup key config) config

  unfoldable pub rename_all : List (String × String) → Dict (Setting J) → Dict (Setting J)
  rename_all [] config = config
  rename_all ((key, replacement) ∷ ms) config = rename_all ms (rename key replacement config)

  -- `if replacement: config['volume_driver'] = replacement`
  unfoldable pub set_driver : Option String → Dict (Setting J) → Dict (Setting J)
  unfolding Dict.insert
  set_driver none config = config
  set_driver (some r) config =
      if truthy r then Dict.insert "volume_driver" (text r) config else config

  -- `config.get('volume_driver').lower()`, of a value that may be no text.
  unfoldable pub replace_driver :
      Dict String → Option (Setting J) → Dict (Setting J) → Outcome (Dict (Setting J))
  unfolding Dict.lookup
  replace_driver mapping none config = err (attribute_error "lower")
  replace_driver mapping (some (json j)) config = err (attribute_error "lower")
  replace_driver mapping (some (text t)) config =
      ok (set_driver (Dict.lookup (lower t) mapping) config)

  abbrev map_renamed :
      Option (List (String × String)) → Dict (Setting J) → Outcome (Dict (Setting J))
  map_renamed drivers config =
      replace_driver (get_drivers_map drivers) (Dict.lookup "volume_driver" config) config

  -- The configuration that `_map_backend_config` leaves; an empty one is left as it is.
  unfoldable pub map_backend_config :
      Option (List (String × String)) → Dict (Setting J) → Outcome (Dict (Setting J))
  map_backend_config drivers [] = ok []
  map_backend_config drivers (e ∷ es) =
      map_renamed drivers (rename_all backend_key_mappings (e ∷ es))
