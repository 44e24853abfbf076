-- ===== src/Topology/Accessible.antt =====
-- `_topology_is_accessible`: the hierarchy is walked along the segments of the requested topology.
pub mod Rounds
use ember_csi.Base.{
  ℕ, zero, suc, String, ◌==◌, elem, Bool, true, false, Option, none, some, List, [], ◌∷◌, length,
  if◌then◌else◌,
}
use ember_csi.Base.Dict
use ember_csi.Csi.{Topology, Level, Values, no_segments, segment}
use ember_csi.Topology.Hierarchy.{find_value}

-- The `for` loop: the first segment of the level that is still unchecked.
unfoldable pub pick_segment : List String → Level → Option (String × Values)
pick_segment unchecked no_segments = none
pick_segment unchecked (segment n vs l) =
    if elem n unchecked then some (n, vs) else pick_segment unchecked l

-- `unchecked.remove(name)`: the first occurrence.
unfoldable pub remove : String → List String → List String
remove n [] = []
remove n (m ∷ ms) = if m == n then ms else m ∷ remove n ms

abbrev or_empty : Option String → String
or_empty none = ""
or_empty (some v) = v

-- `topology.segments[name]`, for a name among its keys.
unfoldable pub segment_value : String → Topology → String
unfolding Dict.lookup
segment_value n t = or_empty (Dict.lookup n t)

-- `level is not None and not (unchecked and level)`, once the loop has ended.
unfoldable pub verdict : Option Level → List String → Bool
verdict none unchecked = false
verdict (some no_segments) unchecked = true
verdict (some (segment n vs l)) [] = true
verdict (some (segment n vs l)) (u ∷ us) = false

-- `while level and unchecked`. `none` says that the loop is still running when the fuel is used up.
-- A round in which no segment of the level is unchecked changes nothing.
unfoldable pub walk : ℕ → Topology → Option Level → List String → Option Bool
walk fuel t none unchecked = some (verdict none unchecked)
walk fuel t (some no_segments) unchecked = some (verdict (some no_segments) unchecked)
walk fuel t (some (segment n vs l)) [] = some (verdict (some (segment n vs l)) [])
walk zero t (some (segment n vs l)) (u ∷ us) = none
walk (suc fuel) t (some (segment n vs l)) (u ∷ us) = elim (pick_segment (u ∷ us) (segment n vs l)) [
  | none ↦ walk fuel t (some (segment n vs l)) (u ∷ us)
  | some (m, ws) ↦ walk fuel t (find_value (segment_value m t) ws) (remove m (u ∷ us))
]

-- `hiera` is `none` while no topologies are configured. One round for each segment of the topology, and one to spare.
unfoldable pub is_accessible : Option Level → Topology → Option Bool
is_accessible hiera t = walk (suc (length (Dict.keys t))) t hiera (Dict.keys t)
