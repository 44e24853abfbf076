-- ===== src/Snapshot/Lookup.antt =====
-- `_get_snap` of ember_csi/base.py.
use ember_csi.Base.{String, truthy, Bool, true, false, Option, none, some, List, [], ◌∷◌}
use ember_csi.Rpc.{attribute_error, Exec, pure, raise, ◌>>=◌}
use ember_csi.Cinder.{Snapshot, Cinder}

pub data FoundSnap : Type 0 where
  one : Snapshot → FoundSnap
  many : List Snapshot → FoundSnap

-- `snapshot_id or filters`; a filter is a keyword argument, whatever its value.
abbrev is_filtered : Option String → Option String → Option String → Bool
is_filtered none none none = false
is_filtered (some snapshot_id) none none = truthy snapshot_id
is_filtered _ _ _ = true

unfoldable pub single : Bool → List Snapshot → FoundSnap
single true (x ∷ []) = one x
single true xs = many xs
single false xs = many xs

module _ {W : Type 0} (cl : Cinder W) where
  -- `_get_snap(snapshot_id, snapshot_name=..., volume_id=...)`
  unfoldable pub get_snap : Option String → Option String → Option String → Exec W FoundSnap
  get_snap snapshot_id snapshot_name volume_id = do
    res ← cl.get_snapshots snapshot_id snapshot_name volume_id
    pure (single (is_filtered snapshot_id snapshot_name volume_id) res)

-- `if not snap: absent`, then the use of `attribute` of the snapshot.
unfoldable pub or_absent_snap :
    {W : Type 0} → FoundSnap → String → Exec W Snapshot → Exec W Snapshot
or_absent_snap (one x) attribute absent = pure x
or_absent_snap (many []) attribute absent = absent
or_absent_snap (many (_ ∷ _)) attribute absent = raise (attribute_error attribute)
