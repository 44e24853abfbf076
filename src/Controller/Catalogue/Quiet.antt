-- ===== src/Controller/Catalogue/Quiet.antt =====
-- The parts of `CreateVolume` and `DeleteVolume` of ember_csi/base.py that leave the kept volumes as they are.
use ember_csi.Base.{refl, String, Option, none, some, List, [], ◌∷◌, arith}
use ember_csi.Base.Dict.{Dict}
use ember_csi.Rpc.{Exec}
use ember_csi.Rpc.Effects.{IsQuiet}
use ember_csi.Cinder.{Volume, Cinder}
use ember_csi.Cinder.Laws.{Catalogue, CinderLaws}
use ember_csi.Csi.{Topology, TopologyRequirement, CapacityRange, CreateVolumeRequest, Servicer}
use ember_csi.Identity.Capabilities.{validate_capabilities}
use ember_csi.Identity.Lookup.{get_vol, get_vols}
use ember_csi.Snapshot.Lookup.{get_snap}
use ember_csi.Topology.Requirements.{
  or_diverged, topology_is_accessible, any_accessible, check_requisite,
  validate_accessible_requirements, check_topology, check_requirement, validate_accessibility,
}
use ember_csi.Controller.Size.{pick_size, calculate_size}
use ember_csi.Controller.Create.{check_keywords, validate_requirements, report_created}
use ember_csi.Controller.Message.{content_source, convert_volume_type}

module _ {W : Type 0} (view : W → Catalogue) where
  pub calculate_size-IsQuiet : (r : CapacityRange) → IsQuiet view (calculate_size r)
  unfolding calculate_size pick_size
  calculate_size-IsQuiet r w = ground arith

  pub check_keywords-IsQuiet :
      (arguments : List String) (params : Dict String)
      → IsQuiet view (check_keywords arguments params)
  unfolding check_keywords
  check_keywords-IsQuiet arguments [] w = refl
  check_keywords-IsQuiet arguments ((k, v) ∷ params) w =
      ground (arith, check_keywords-IsQuiet arguments params w)

  module _ (s : Servicer) where
    topology_is_accessible-IsQuiet : (t : Topology) → IsQuiet view (topology_is_accessible s t)
    unfolding topology_is_accessible or_diverged
    topology_is_accessible-IsQuiet t w = ground arith

    any_accessible-IsQuiet : (ts : List Topology) → IsQuiet view (any_accessible s ts)
    unfolding any_accessible topology_is_accessible or_diverged
    any_accessible-IsQuiet [] w = refl
    any_accessible-IsQuiet (t ∷ ts) w = ground (arith, any_accessible-IsQuiet ts w)

    check_requisite-IsQuiet : (a b : List Topology) → IsQuiet view (check_requisite s a b)
    unfolding check_requisite
    check_requisite-IsQuiet [] [] w = refl
    check_requisite-IsQuiet [] (p ∷ ps) w = refl
    check_requisite-IsQuiet (t ∷ ts) ps w = ground (arith, any_accessible-IsQuiet (t ∷ ts) w)

    check_topology-IsQuiet : (o : Option Topology) → IsQuiet view (check_topology s o)
    unfolding check_topology topology_is_accessible or_diverged
    check_topology-IsQuiet none w = refl
    check_topology-IsQuiet (some t) w = ground arith

    check_requirement-IsQuiet :
        (o : Option TopologyRequirement) → IsQuiet view (check_requirement s o)
    unfolding check_requirement validate_accessible_requirements
    check_requirement-IsQuiet none w = refl
    check_requirement-IsQuiet (some r) w = check_requisite-IsQuiet r.requisite r.preferred w

    validate_accessibility-IsQuiet :
        (o : Option TopologyRequirement) → IsQuiet view (validate_accessibility s o none)
    unfolding validate_accessibility check_topology
    validate_accessibility-IsQuiet o w = ground (arith, check_requirement-IsQuiet o w)

    pub validate_requirements-IsQuiet :
        (cl : Cinder W) (f : Volume → Exec W String) (r : CreateVolumeRequest)
        → IsQuiet view (validate_requirements cl f s r)
    unfolding validate_requirements validate_capabilities
    validate_requirements-IsQuiet cl f r w =
        ground (arith, validate_accessibility-IsQuiet r.accessibility_requirements w)

    -- `source_vol_id` only reads.
    pub report_created-IsQuiet :
        (cl : Cinder W) (f : Volume → Exec W String)
        → ((v : Volume) → IsQuiet view (f v))
        → (v : Volume) → IsQuiet view (report_created cl f s v)
    unfolding report_created convert_volume_type content_source
    report_created-IsQuiet cl f quiet v w = ground (arith, quiet v w)

module _ {W : Type 0} (cl : Cinder W) (s : Servicer) (view : W → Catalogue)
    (laws : CinderLaws cl s.backend view) where
  pub get_vols-IsQuiet : (id name : Option String) → IsQuiet view (get_vols cl s id name)
  unfolding get_vols
  get_vols-IsQuiet id name w = ground (arith, laws.reads_quiet id name w)

  pub get_vol-IsQuiet : (id name : Option String) → IsQuiet view (get_vol cl s id name)
  unfolding get_vol
  get_vol-IsQuiet id name w = ground (arith, get_vols-IsQuiet id name w)

  pub get_snap-IsQuiet : (a b c : Option String) → IsQuiet view (get_snap cl a b c)
  unfolding get_snap
  get_snap-IsQuiet a b c w = ground (arith, laws.get_snapshots_quiet a b c w)
