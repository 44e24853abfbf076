-- ===== src/Config/Defaults.antt =====
-- `Config._get_ember_cfg` of ember_csi/config.py: the defaults of X_CSI_EMBER_CONFIG, and the path of the
-- state in its values.
use Prim.Native.Char.{Char}
use ember_csi.Base.{
  ℕ, zero, suc, String, ◌<>◌, starts_with, has_infix, Bool, true, false, Option, none, some, List,
  [], ◌∷◌, if◌then◌else◌,
}
pub mod Lookups
use ember_csi.Base.Dict
use ember_csi.Base.Dict.{Dict}
use ember_csi.Rpc.{key_error, type_error, Outcome, ok, err}
use ember_csi.Config.Backend.{Setting, text, json}

-- `text.replace('$state_path', state_path)`; the number counts the characters that are still to be
-- skipped.
unfoldable pub replace_from : String → ℕ → String → String
replace_from path skip String.[] = ""
replace_from path (suc n) (String.◌∷◌ c s) = replace_from path n s
replace_from path zero (String.◌∷◌ c s) = elim (starts_with (String.◌∷◌ c s) "$state_path") [
  | true ↦ path <> replace_from path 10 s
  | false ↦ String.◌∷◌ c (replace_from path 0 s)
]

unfoldable pub replace_path : String → String → String
unfolding replace_from
replace_path path s = replace_from path 0 s

module _ {J : Type 0} where
  -- The first loop: `for key, value in defaults.items(): config.setdefault(key, value)`.
  unfoldable pub set_defaults : Dict (Setting J) → Dict (Setting J) → Dict (Setting J)
  set_defaults [] config = config
  set_defaults ((k, v) ∷ ds) config = set_defaults ds (Dict.set_default k v config)

  -- Only texts are looked at.
  unfoldable pub replace_in : String → Setting J → Setting J
  replace_in path (text t) =
      if has_infix t "$state_path" then text (replace_path path t) else text t
  replace_in path (json j) = json j

  unfoldable pub replace_all : String → Dict (Setting J) → Dict (Setting J)
  replace_all path [] = []
  replace_all path ((k, v) ∷ c) = (k, replace_in path v) ∷ replace_all path c

  -- `config['state_path']`, which must be a text: it also replaces its name in `defaults.VOL_BINDS_DIR`.
  unfoldable pub replace_by : Option (Setting J) → Dict (Setting J) → Outcome (Dict (Setting J))
  replace_by none config = err key_error
  replace_by (some (text path)) config = ok (replace_all path config)
  replace_by (some (json j)) config = err type_error

  unfoldable pub get_ember_cfg : Dict (Setting J) → Dict (Setting J) → Outcome (Dict (Setting J))
  get_ember_cfg defaults config =
      let full = set_defaults defaults config in replace_by (Dict.lookup "state_path" full) full
