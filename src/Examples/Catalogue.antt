-- ===== src/Examples/Catalogue.antt =====
-- Volumes that are created and deleted on a backend with room for one.
use ember_csi.Base.{◌≡◌, refl, arith, eq_iff, String, Option, none, some, []}
use ember_csi.Rpc.{ok, pure, Exec}
use ember_csi.Cinder.{Volume}
use ember_csi.Csi.{DeleteVolumeRequest, VolumeMessage, v1_0_0}
use ember_csi.Identity.Capabilities.{
  validate_capabilities, capabilities_message, unsupported_mode, unsupported_fs_type,
}
use ember_csi.Identity.Lookup.{one, live, single, get_vols, get_vol}
use ember_csi.Identity.Lookup.Live.{IsLive}
use ember_csi.Topology.Requirements.{validate_accessibility}
use ember_csi.Controller.Size.{Sizes, gb, get_size, pick_size, calculate_size}
use ember_csi.Controller.Params.{convert_volume_params, add_params}
use ember_csi.Controller.Message.{convert_volume_type, content_source}
use ember_csi.Controller.Create.{
  validate_requirements, check_keywords, create_content, wait_created, existing_or_new,
  report_created, create_body,
}
use ember_csi.Controller.Delete.{
  wait_deleted, delete_or_mark, remove_volume, delete_found, delete_any, delete_body,
}
use ember_csi.Controller.Catalogue.{IsUnique, IsFree}
use ember_csi.Controller.Catalogue.Create.{Serves, Extends}
use ember_csi.Controller.Catalogue.Delete.{Apart}
use ember_csi.Controller.Catalogue.Requests.{
  start, create, delete, run-IsUnique, create_body-Serves, create_body-again, delete_body-frees,
}
use ember_csi.Controller.Catalogue.Again.{create_body_kept}
use ember_csi.Samples.{volume, servicer, create_request}
use ember_csi.Samples.Single.{kept, single_store}
use ember_csi.Samples.Single.Lawful.{single_store_laws}

abbrev no_source : Volume → Exec (Option Volume) String
no_source v = pure ""

abbrev data_volume : Volume
data_volume = volume "data" "data" "available"

abbrev of_id : String → DeleteVolumeRequest
of_id id = record { volume_id = id }

abbrev created : Option Volume → String → Option Volume
created w name = (create_body single_store no_source (servicer v1_0_0) (create_request name) w).1

abbrev deleted : Option Volume → String → Option Volume
deleted w id = (delete_body single_store (servicer v1_0_0) (of_id id) w).1

empty-IsUnique : IsUnique (kept none)
empty-IsUnique n k v x at_n at_k live_v live_x names = ground arith

full-IsUnique : IsUnique (kept (some data_volume))
full-IsUnique n k v x at_n at_k live_v live_x names =
    ground (arith, at_n, at_k, eq_iff "data" n, eq_iff "data" k)

abbrev message : VolumeMessage
message = record {
  capacity_bytes = gb;
  volume_id = "data";
  volume_context = none;
  content_source = none;
  accessible_topology = [];
}

create_answers :
    create_body single_store no_source (servicer v1_0_0) (create_request "data") none
    ≡ (ok message, some data_volume)
unfolding create_body calculate_size pick_size get_size validate_requirements validate_capabilities
    capabilities_message unsupported_mode unsupported_fs_type validate_accessibility get_vol
    get_vols live single existing_or_new check_keywords create_content report_created
    convert_volume_type content_source convert_volume_params add_params
create_answers = refl

-- There is no room for the volume that is asked for in between.
create_again :
    create_body single_store no_source
      (servicer v1_0_0)
      (create_request "data")
      (created (some data_volume) "logs")
    ≡ (ok message, some data_volume)
unfolding create_body calculate_size pick_size get_size validate_requirements validate_capabilities
    capabilities_message unsupported_mode unsupported_fs_type validate_accessibility get_vol
    get_vols live single existing_or_new check_keywords create_content wait_created report_created
    convert_volume_type content_source convert_volume_params add_params
create_again = refl

delete_answers :
    delete_body single_store (servicer v1_0_0) (of_id "data") (some data_volume) ≡ (ok tt, none)
unfolding delete_body get_vol get_vols live single delete_any delete_found wait_deleted
    remove_volume delete_or_mark
delete_answers = refl

-- The first volume is deleted before the second is created.
run-IsUnique_example : IsUnique (kept (created (deleted (created none "data") "data") "logs"))
run-IsUnique_example =
    run-IsUnique single_store no_source (servicer v1_0_0) kept single_store_laws (λ v w. refl)
      (λ r. Unit) none (created (deleted (created none "data") "data") "logs") empty-IsUnique
      (create (create_request "logs") refl
        (delete (of_id "data") refl tt (create (create_request "data") refl start)))

create_body-Serves_example :
    Serves (kept (some data_volume)) "data" "data"
    × IsUnique (kept (some data_volume))
    × Extends (kept none) (kept (some data_volume))
create_body-Serves_example =
    create_body-Serves single_store no_source (servicer v1_0_0) kept single_store_laws (λ v w. refl)
      (create_request "data") none (some data_volume) message refl empty-IsUnique create_answers

-- The volume is created, and asked for again after a request for another one that fails.
create_body-again_example : message.volume_id ≡ message.volume_id
create_body-again_example =
    create_body-again single_store no_source (servicer v1_0_0) kept single_store_laws (λ v w. refl)
      (create_request "data") (create_request "data") none (some data_volume)
      (created (some data_volume) "logs") (some data_volume) message message refl refl
      empty-IsUnique create_answers (create (create_request "logs") refl start) create_again

abbrev asked : Option Volume
asked = created (some data_volume) "logs"

asked_valid :
    validate_requirements single_store no_source (servicer v1_0_0) (create_request "data") asked
    ≡ (ok tt, asked)
unfolding validate_requirements validate_capabilities capabilities_message unsupported_mode
    unsupported_fs_type validate_accessibility
asked_valid = refl

abbrev sizes : Sizes
sizes = record { vol_size = gb; min_size = gb; max_size = gb }

found_size : calculate_size (create_request "data").capacity_range asked ≡ (ok sizes, asked)
unfolding calculate_size get_size pick_size
found_size = refl

asked_found :
    get_vol single_store (servicer v1_0_0) none (some "data") asked ≡ (ok (one data_volume), asked)
unfolding create_body calculate_size pick_size get_size validate_requirements validate_capabilities
    capabilities_message unsupported_mode unsupported_fs_type validate_accessibility get_vol
    get_vols live single existing_or_new check_keywords create_content convert_volume_params
    add_params
asked_found = refl

create_body_kept_example :
    create_body single_store no_source (servicer v1_0_0) (create_request "data") asked
    ≡ convert_volume_type no_source (servicer v1_0_0) data_volume asked
create_body_kept_example =
    create_body_kept single_store no_source (servicer v1_0_0) kept single_store_laws (λ v w. refl)
      (create_request "data") (create_request "data") sizes data_volume message (one data_volume)
      none (some data_volume) asked asked asked refl refl empty-IsUnique create_answers refl
      (create (create_request "logs") refl start) refl (omega arith) (omega arith) found_size
      asked_valid asked_found

delete_body-frees_example :
    ((x : Volume) → kept none "data" ≡ some x → ¬ IsLive x)
    × ((x : Volume)
        → kept (some data_volume) "data" ≡ some x
        → IsLive x
        → IsFree (kept none) x.name)
    × Apart (kept (some data_volume)) "data" (kept none)
delete_body-frees_example =
    delete_body-frees single_store (servicer v1_0_0) kept single_store_laws (of_id "data")
      (some data_volume) none refl full-IsUnique delete_answers
