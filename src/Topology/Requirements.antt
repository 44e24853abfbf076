-- ===== src/Topology/Requirements.antt =====
-- `_validate_accessible_requirements` and `_validate_accessibility`.
pub mod Acceptance
use ember_csi.Base.{
  String, ◌==◌, Bool, true, false, ◌&&◌, ◌||◌, Option, none, some, List, [], ◌∷◌, length, eqb,
  if◌then◌else◌,
}
use ember_csi.Base.Dict
use ember_csi.Base.Dict.{Dict}
use ember_csi.Rpc.{invalid_argument, diverged, Exec, pure, raise, abort_with, ◌>>=◌, ◌>>◌}
use ember_csi.Csi.{Topology, TopologyRequirement, Servicer}
use ember_csi.Topology.Accessible.{is_accessible}

-- `==` of two `Topology` messages: their maps have the same entries.
abbrev has_value : Option String → String → Bool
has_value none v = false
has_value (some w) v = w == v

unfoldable pub is_submap : Dict String → Dict String → Bool
unfolding Dict.lookup
is_submap [] d = true
is_submap ((k, v) ∷ rest) d = has_value (Dict.lookup k d) v && is_submap rest d

unfoldable pub same_topology : Topology → Topology → Bool
unfolding is_submap
same_topology a b = eqb (length a) (length b) && is_submap a b

-- `p in requisite`
unfoldable pub elem_topology : Topology → List Topology → Bool
unfolding same_topology
elem_topology p [] = false
elem_topology p (t ∷ ts) = same_topology p t || elem_topology p ts

-- `all(p in requisite for p in preferred)`, as the loop over `preferred` decides it.
unfoldable pub all_requisite : List Topology → List Topology → Bool
unfolding elem_topology
all_requisite [] requisite = true
all_requisite (p ∷ ps) requisite = elem_topology p requisite && all_requisite ps requisite

unfoldable pub or_diverged : {W : Type 0} → Option Bool → Exec W Bool
or_diverged none = raise diverged
or_diverged (some b) = pure b

abbrev is_empty {ℓ} : {A : Type ℓ} → List A → Bool
is_empty [] = true
is_empty (_ ∷ _) = false

module _ (s : Servicer) where
  unfoldable pub topology_is_accessible : {W : Type 0} → Topology → Exec W Bool
  topology_is_accessible t = or_diverged (is_accessible s.topology_hiera t)

  -- The last loop: the first accessible topology ends it.
  unfoldable pub any_accessible : {W : Type 0} → List Topology → Exec W (Unit {0})
  any_accessible [] = abort_with invalid_argument "None of the requested topologies are accessible."
  any_accessible (t ∷ ts) = topology_is_accessible t >>= λ found. elim found [
    | true ↦ pure tt
    | false ↦ any_accessible ts
  ]

  unfoldable pub check_requisite : {W : Type 0} → List Topology → List Topology → Exec W (Unit {0})
  check_requisite [] [] =
      abort_with invalid_argument "Need topology requisite and/or preferred field"
  check_requisite [] (p ∷ preferred) = pure tt
  check_requisite (t ∷ requisite) preferred =
      if all_requisite preferred (t ∷ requisite)
      then any_accessible (t ∷ requisite)
      else abort_with invalid_argument "All preferred topologies must be in requisite topologies"

  unfoldable pub validate_accessible_requirements :
      {W : Type 0} → TopologyRequirement → Exec W (Unit {0})
  validate_accessible_requirements r = check_requisite r.requisite r.preferred

  unfoldable pub check_topology : {W : Type 0} → Option Topology → Exec W (Unit {0})
  check_topology none = pure tt
  check_topology (some t) = topology_is_accessible t >>= λ found. elim found [
    | true ↦ pure tt
    | false ↦ abort_with invalid_argument "Topology is not accessible."
  ]

  unfoldable pub check_requirement : {W : Type 0} → Option TopologyRequirement → Exec W (Unit {0})
  check_requirement none = pure tt
  check_requirement (some r) = validate_accessible_requirements r

  -- `_validate_accessibility(request, context)`; a request has one of the two fields, and the other
  -- is `none`.
  unfoldable pub validate_accessibility :
      {W : Type 0} → Option TopologyRequirement → Option Topology → Exec W (Unit {0})
  validate_accessibility requirement topology =
      if is_empty s.grpc_topologies
      then pure tt
      else check_requirement requirement >> check_topology topology
