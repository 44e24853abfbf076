-- ===== src/Examples/Topology.antt =====
-- Topologies at concrete hierarchies.
use ember_csi.Base.{◌≡◌, ◌≢◌, refl, String, ◌⊎◌, true, false, some, none, [], ◌∷◌, All}
use ember_csi.Base.Dict.{lookup}
use ember_csi.Csi.{
  Topology, TopologyRequirement, Level, Servicer, v1_0_0, no_segments, segment, no_values, value,
}
use ember_csi.Topology.Hierarchy.{
  update_segment, update_value, add_topology, build_hierarchy, init_topology, find_value,
}
use ember_csi.Topology.Accessible.{
  pick_segment, remove, segment_value, verdict, walk, is_accessible,
}
use ember_csi.Topology.Accessible.Rounds.{is_accessible-hangs, is_accessible-disjoint}
use ember_csi.Topology.Configured.{is_accessible-configured}
use ember_csi.Topology.Requirements.{
  is_submap, same_topology, elem_topology, all_requisite, or_diverged, topology_is_accessible,
  any_accessible, check_requisite, validate_accessible_requirements,
}
use ember_csi.Topology.Requirements.Acceptance.{
  Some, IsAccessible, validate_accessible_requirements_sound,
}
use ember_csi.Samples.{store}

abbrev place : String → String → Topology
place region zone = ("region", region) ∷ ("zone", zone) ∷ []

is_accessible-configured_example :
    is_accessible (some (init_topology (place "eu" "a" ∷ place "us" "b" ∷ []))) (place "us" "a")
    ≡ some false
is_accessible-configured_example =
    is_accessible-configured ("region" ∷ "zone" ∷ []) (place "us" "a") (place "eu" "a")
      (place "us" "b" ∷ []) (refl, (refl, tt)) refl (refl, (refl, tt))

-- A topology that was configured with its segments in another order is not found.
order_matters :
    is_accessible
      (some (
        init_topology
          ((("region", "eu") ∷ ("zone", "a") ∷ []) ∷ (("zone", "b") ∷ ("region", "us") ∷ []) ∷ [])))
      (("zone", "b") ∷ ("region", "us") ∷ [])
    ≡ some false
unfolding is_accessible walk pick_segment remove segment_value lookup verdict find_value
    init_topology build_hierarchy add_topology update_segment update_value
order_matters = refl

abbrev by_region : Level
by_region = segment "region" (value "eu" no_segments no_values) no_segments

hangs : is_accessible (some by_region) (("rack", "r1") ∷ []) ≡ none
unfolding is_accessible walk pick_segment
hangs = refl

is_accessible-hangs_example : walk 50 (("rack", "r1") ∷ []) (some by_region) ("rack" ∷ []) ≡ none
is_accessible-hangs_example = is_accessible-hangs (some by_region) (("rack", "r1") ∷ []) hangs 50

is_accessible-disjoint_example : walk 70 (("rack", "r1") ∷ []) (some by_region) ("rack" ∷ []) ≡ none
is_accessible-disjoint_example =
    is_accessible-disjoint "region" (value "eu" no_segments no_values) no_segments "rack" "r1" []
      (refl, tt) 70

abbrev regional : Servicer
regional = record {
  version = v1_0_0;
  backend = some "lvm";
  grpc_topologies = (("region", "eu") ∷ []) ∷ [];
  topology_hiera = some by_region;
  supported_fs_types = [];
  fuel = 4;
}

abbrev wanted : TopologyRequirement
wanted = record {
  requisite = (("region", "us") ∷ []) ∷ (("region", "eu") ∷ []) ∷ [];
  preferred = (("region", "eu") ∷ []) ∷ [];
}

validate_accessible_requirements_sound_example :
    (store [] [] [] [] ≡ store [] [] [] [])
    × ((wanted.requisite ≡ [] × (wanted.preferred ≢ []))
        ⊎ (Some (IsAccessible regional) wanted.requisite
            × All (λ p. elem_topology p wanted.requisite ≡ true) wanted.preferred))
unfolding validate_accessible_requirements check_requisite all_requisite elem_topology same_topology
    is_submap lookup any_accessible topology_is_accessible or_diverged is_accessible walk
    pick_segment remove segment_value verdict find_value
validate_accessible_requirements_sound_example =
    validate_accessible_requirements_sound regional wanted (store [] [] [] []) (store [] [] [] [])
      refl
