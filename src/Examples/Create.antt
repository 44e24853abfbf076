-- ===== src/Examples/Create.antt =====
-- `CreateVolume` at concrete requests.
use ember_csi.Base.{◌≡◌, ◌≢◌, refl, String, [], ◌∷◌, some, none}
use ember_csi.Base.Int.{◌≤ℤ◌}
use ember_csi.Rpc.{ok, pure, Exec}
use ember_csi.Cinder.{Volume}
use ember_csi.Csi.{VolumeMessage, v1_0_0}
use ember_csi.Identity.Lookup.{one, live, single, get_vols, get_vol}
use ember_csi.Identity.Capabilities.{
  unsupported_mode, unsupported_fs_type, capabilities_message, validate_capabilities,
}
use ember_csi.Topology.Requirements.{validate_accessibility}
use ember_csi.Controller.Size.{Sizes, gb, get_size, calculate_size}
use ember_csi.Controller.Size.Bounds.{lower, upper, calculate_size_bounds}
use ember_csi.Controller.Create.{validate_requirements, create_body}
use ember_csi.Controller.Create.Existing.{create_body-creating}
use ember_csi.Samples.{Store, store, volume, fake, servicer, create_request, one_gb}

abbrev no_source : Volume → Exec Store String
no_source v = pure ""

abbrev holding : String → Store
holding status = store (volume "v1" "data" status ∷ []) [] [] []

abbrev sizes : Sizes
sizes = record { vol_size = gb; min_size = gb; max_size = gb }

sizes_of :
    calculate_size {W = Store} (create_request "data").capacity_range (holding "available")
    ≡ (ok sizes, holding "available")
unfolding calculate_size get_size
sizes_of = refl

calculate_size_bounds_example :
    (gb ≤ℤ gb)
    × (lower one_gb ≤ℤ gb)
    × (gb ≤ℤ upper one_gb)
    × (holding "available" ≡ holding "available")
calculate_size_bounds_example =
    calculate_size_bounds one_gb (holding "available") (holding "available") sizes sizes_of

valid_at :
    (status : String)
    → validate_requirements fake no_source
        (servicer v1_0_0)
        (create_request "data")
        (holding status)
      ≡ (ok tt, holding status)
unfolding validate_requirements validate_capabilities capabilities_message unsupported_mode
    unsupported_fs_type validate_accessibility
valid_at status = refl

found_creating :
    get_vol fake (servicer v1_0_0) none (some "data") (holding "creating")
    ≡ (ok (one (volume "v1" "data" "creating")), holding "creating")
unfolding get_vol get_vols live single
found_creating = refl

sizes_while_creating :
    calculate_size {W = Store} (create_request "data").capacity_range (holding "creating")
    ≡ (ok sizes, holding "creating")
unfolding calculate_size get_size
sizes_while_creating = refl

abbrev message : VolumeMessage
message = record {
  capacity_bytes = gb;
  volume_id = "v1";
  volume_context = none;
  content_source = none;
  accessible_topology = [];
}

create_body-creating_example :
    create_body fake no_source (servicer v1_0_0) (create_request "data") (holding "creating")
    ≢ (ok message, holding "creating")
create_body-creating_example =
    create_body-creating fake no_source (servicer v1_0_0) (create_request "data")
      (volume "v1" "data" "creating") sizes (holding "creating") (holding "creating")
      (holding "creating") sizes_while_creating (valid_at "creating") found_creating message
      (holding "creating") refl
