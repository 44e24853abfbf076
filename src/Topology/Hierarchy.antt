-- ===== src/Topology/Hierarchy.antt =====
-- `_init_topology`: the configured topologies are merged into nested dicts, one level for each
-- segment, in the order in which the segments were configured.
use ember_csi.Base.{String, ◌==◌, List, [], ◌∷◌, Option, none, some, if◌then◌else◌}
use ember_csi.Csi.{Topology, Level, Values, no_segments, segment, no_values, value}

-- `value = level.setdefault(name, {})`, with what then happens to `value`.
unfoldable pub update_segment : String → (Values → Values) → Level → Level
update_segment name f no_segments = segment name (f no_values) no_segments
update_segment name f (segment n vs l) =
    if n == name then segment n (f vs) l else segment n vs (update_segment name f l)

-- `level = value.setdefault(segment_value, {})`, with what then happens to `level`.
unfoldable pub update_value : String → (Level → Level) → Values → Values
update_value v f no_values = value v (f no_segments) no_values
update_value v f (value u l vs) =
    if u == v then value u (f l) vs else value u l (update_value v f vs)

-- The inner loop over `topology.items()`.
unfoldable pub add_topology : Topology → Level → Level
add_topology [] level = level
add_topology ((name, v) ∷ rest) level =
    update_segment name (update_value v (add_topology rest)) level

-- The outer loop over `CONF.TOPOLOGIES`.
unfoldable pub build_hierarchy : List Topology → Level → Level
build_hierarchy [] level = level
build_hierarchy (t ∷ ts) level = build_hierarchy ts (add_topology t level)

unfoldable pub init_topology : List Topology → Level
init_topology topologies = build_hierarchy topologies no_segments

-- `values.get(v)`
unfoldable pub find_value : String → Values → Option Level
find_value v no_values = none
find_value v (value u l vs) = if u == v then some l else find_value v vs
