-- ===== src/Config/Environment.antt =====
-- The readers of the environment, and the first checks of `Config.validate`, of ember_csi/config.py.
use ember_csi.Base.{
  String, ◌==◌, ◌&&◌, truthy, elem, eqb, Bool, true, false, not, Option, none, some, List, [], ◌∷◌,
  if◌then◌else◌,
}
use ember_csi.Base.Int.{ℤ, pos, negsuc}
use ember_csi.Base.Dict
use ember_csi.Base.Dict.{Dict}
use ember_csi.Rpc.{exited, attribute_error, Outcome, ok, err}
use ember_csi.Base.Case.{upper}

-- `os.environ.get(name)`, of which a missing and an empty value are alike here.
abbrev or_empty : Option String → String
or_empty none = ""
or_empty (some v) = v

unfoldable pub getenv : Dict String → String → String
unfolding Dict.lookup
getenv environ name = or_empty (Dict.lookup name environ)

unfoldable pub env_string : Dict String → String → String → String
env_string environ name default =
    if truthy (getenv environ name) then getenv environ name else default

abbrev text_of : Bool → String
text_of true = "True"
text_of false = "False"

-- The variable that is read is always the same one, whatever the name.
unfoldable pub env_bool : Dict String → String → Bool → Bool
env_bool environ name default =
    let res = getenv environ "X_CSI_ABORT_DUPLICATES" in
    upper (if truthy res then res else text_of default) == "TRUE"

-- `constants.ERROR_JSON`; `loads` is `json.loads`, and `none` says that it raises.
abbrev loaded : {J : Type 0} → Option J → Outcome J
loaded none = err (exited 12)
loaded (some j) = ok j

unfoldable pub env_json : {J : Type 0} → (String → Option J) → Dict String → String → J → Outcome J
env_json loads environ name default =
    if truthy (getenv environ name) then loaded (loads (getenv environ name)) else ok default

-- `WORKERS`, which may be set to any value of JSON. A boolean is an integer in Python.
pub data Workers : Type 0 where
  int : ℤ → Workers
  no_int : Workers

abbrev pub is_count : Workers → Bool
is_count (int (pos n)) = not (eqb n 0)
is_count (int (negsuc n)) = true
is_count no_int = false

-- The attributes of `Config` that are checked; the backend by its truth value.
pub record Settings : Type 0 where
  pub mode : String
  pub has_backend : Bool
  pub default_mount_fs : String
  pub supported_fs_types : List String
  pub workers : Workers

-- The checks that come before the one of the specification's version. `exit(n)` is the fault
-- `exited n`, and `constants` has no `ERROR_WORKERS`.
unfoldable pub check_settings : Settings → Outcome (Unit {0})
check_settings c =
    if not (elem c.mode ("controller" ∷ "node" ∷ "all" ∷ []))
    then err (exited 2)
    else if not (c.mode == "node") && not c.has_backend
    then err (exited 3)
    else if not (elem c.default_mount_fs c.supported_fs_types)
    then err (exited 5)
    else if not (is_count c.workers)
    then err (attribute_error "ERROR_WORKERS")
    else ok tt
