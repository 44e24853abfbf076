-- ===== src/Identity/Lookup.antt =====
-- `_get_vol` of ember_csi/base.py: the volumes of the backend that match, less the soft-deleted ones.
pub mod Live
use ember_csi.Base.{
  String, ◌==◌, truthy, Bool, true, false, Option, none, some, List, [], ◌∷◌, if◌then◌else◌,
}
use ember_csi.Rpc.{attribute_error, Exec, pure, raise, ◌>>=◌}
use ember_csi.Cinder.{Volume, Cinder}
use ember_csi.Csi.{Servicer}

-- `[vol for vol in res if vol.status != 'deleted']`
unfoldable pub live : List Volume → List Volume
live [] = []
live (v ∷ vs) = let rest = live vs in if v.status == "deleted" then rest else v ∷ rest

-- `_get_vol` returns a volume, or a list where there is not exactly one match.
pub data Found : Type 0 where
  one : Volume → Found
  many : List Volume → Found

-- `volume_id or filters`
abbrev is_filtered : Option String → Option String → Bool
is_filtered none none = false
is_filtered (some volume_id) none = truthy volume_id
is_filtered _ (some name) = true

unfoldable pub single : Bool → List Volume → Found
single true (v ∷ []) = one v
single true vs = many vs
single false vs = many vs

module _ {W : Type 0} (cl : Cinder W) (s : Servicer) where
  -- `_get_vol(..., always_list=True)`
  unfoldable pub get_vols : Option String → Option String → Exec W (List Volume)
  get_vols volume_id volume_name = do
    res ← cl.get_volumes volume_id volume_name s.backend
    pure (live res)

  unfoldable pub get_vol : Option String → Option String → Exec W Found
  get_vol volume_id volume_name = do
    res ← get_vols volume_id volume_name
    pure (single (is_filtered volume_id volume_name) res)

-- `if not vol: absent`, then the use of `attribute` of the volume: a list has no such attribute.
unfoldable pub or_absent : {W : Type 0} → Found → String → Exec W Volume → Exec W Volume
or_absent (one v) attribute absent = pure v
or_absent (many []) attribute absent = absent
or_absent (many (_ ∷ _)) attribute absent = raise (attribute_error attribute)
