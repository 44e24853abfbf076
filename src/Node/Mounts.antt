-- ===== src/Node/Mounts.antt =====
-- The readers of the mount tables: `_get_device`, `_is_ro_mount`, `_get_mount`, `_get_vol_device` and
-- `_vol_private_location` of ember_csi/base.py.
pub mod Tables
use Prim.Native.Char.{code}
use ember_csi.Base.{
  ℕ, zero, suc, String, ◌==◌, ◌||◌, ◌&&◌, starts_with, Bool, true, false, Option, some, none, List,
  [], ◌∷◌, eqb, codes, if◌then◌else◌,
}
use ember_csi.Rpc.{index_error, Outcome, ok, err, Exec, pure, raise, ◌>>=◌}
use ember_csi.Node.Host.{Host, NodeConf, join_path}

-- `line[i]`
abbrev pub field : List String → ℕ → Outcome String
field [] i = err index_error
field (x ∷ xs) zero = ok x
field (x ∷ xs) (suc i) = field xs i

-- The field of a line that names its device: a path, or else the root of the mount.
unfoldable pub device_of : NodeConf → List String → Outcome String
device_of c line = elim (field line (if c.containerized then 8 else 9)) [
  | err e ↦ err e
  | ok d ↦ if starts_with d "/" then ok d else field line 3
]

abbrev pub found : Outcome String → Outcome (Option String)
found (ok d) = ok (some d)
found (err e) = err e

-- The loop of `_get_device`: the first line with the mount point `path`.
unfoldable pub device_in : NodeConf → String → List (List String) → Outcome (Option String)
device_in c path [] = ok none
device_in c path (line ∷ lines) =
    let rest = device_in c path lines in
    elim (field line 4) [
      | err e ↦ err e
      | ok p ↦ if p == path then found (device_of c line) else rest
    ]

-- `(^|.+,)ro($|,.+)`, matched from the start of the options.
abbrev ends_option : List ℕ → Bool
ends_option [] = true
ends_option (c ∷ []) = false
ends_option (c ∷ d ∷ cs) = eqb c b','

abbrev ro_here : List ℕ → Bool
ro_here [] = false
ro_here (c ∷ []) = false
ro_here (c ∷ d ∷ cs) = eqb c b'r' && (eqb d b'o' && ends_option cs)

abbrev ro_after_comma : List ℕ → Bool
ro_after_comma [] = false
ro_after_comma (c ∷ cs) = (eqb c b',' && ro_here cs) || ro_after_comma cs

unfoldable pub matches_ro : List ℕ → Bool
matches_ro [] = false
matches_ro (c ∷ cs) = ro_here (c ∷ cs) || ro_after_comma cs

-- The loop of `_is_ro_mount`.
unfoldable pub ro_in : String → List (List String) → Outcome (Option Bool)
ro_in path [] = ok none
ro_in path (line ∷ lines) =
    let rest = ro_in path lines in
    elim (field line 4) [
      | err e ↦ err e
      | ok p ↦
          if p == path
          then (elim (field line 5) [ err e ↦ err e | ok o ↦ ok (some (matches_ro (codes o))) ])
          else rest
    ]

-- The comprehension of `_get_mount`.
unfoldable pub mounts_of : String → List (List String) → Outcome (List (List String))
mounts_of bind [] = ok []
mounts_of bind (line ∷ lines) =
    let rest = mounts_of bind lines in
    elim (field line 0) [
      | err e ↦ err e
      | ok d ↦ if d == bind then (elim rest [ err e ↦ err e | ok ms ↦ ok (line ∷ ms) ]) else rest
    ]

abbrev pub lift : {W A : Type 0} → Outcome A → Exec W A
lift r w = (r, w)

module _ {W : Type 0} (h : Host W) (c : NodeConf) where
  unfoldable pub get_device : String → Exec W (Option String)
  get_device path = do lines ← h.mountinfo; lift (device_in c path lines)

  unfoldable pub is_ro_mount : String → Exec W (Option Bool)
  is_ro_mount path = do lines ← h.mountinfo; lift (ro_in path lines)

  unfoldable pub get_mount : String → Exec W (List (List String))
  get_mount bind = do lines ← h.mounts; lift (mounts_of bind lines)

  -- `_vol_private_location`
  unfoldable pub private_location : String → String
  private_location volume_id = join_path c.vol_binds_dir volume_id

  unfoldable pub get_vol_device : String → Exec W (Option String × String)
  get_vol_device volume_id = do
    device ← get_device (private_location volume_id)
    pure (device, private_location volume_id)
