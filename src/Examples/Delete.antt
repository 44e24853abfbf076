-- ===== src/Examples/Delete.antt =====
-- `DeleteVolume` and the lookup of volumes at concrete stores.
use ember_csi.Base.{◌≡◌, refl, String, ◌⊎◌, [], ◌∷◌, false, some, none}
use ember_csi.Rpc.{ok, err, Fault, IsAbort, failed_precondition, aborted}
use ember_csi.Csi.{DeleteVolumeRequest, v1_0_0}
use ember_csi.Identity.Lookup.{one, many, live, single, get_vols, get_vol}
use ember_csi.Controller.Wait.{wait, poll, delete_failed}
use ember_csi.Controller.Wait.Ends.{IsSettled, wait_ends}
use ember_csi.Controller.Delete.{delete_or_mark, delete_body}
use ember_csi.Controller.Delete.Outcomes.{
  delete_body-absent, delete_body-refused, delete_body-deletes,
}
use ember_csi.Samples.{Store, store, volume, fake, servicer}

abbrev with_status : String → Store
with_status status = store (volume "v1" "data" status ∷ []) [] [] []

abbrev request : DeleteVolumeRequest
request = record { volume_id = "v1" }

found_at_available :
    get_vol fake (servicer v1_0_0) (some "v1") none (with_status "available")
    ≡ (ok (one (volume "v1" "data" "available")), with_status "available")
unfolding get_vol get_vols live single
found_at_available = refl

found_in_use :
    get_vol fake (servicer v1_0_0) (some "v1") none (with_status "in-use")
    ≡ (ok (one (volume "v1" "data" "in-use")), with_status "in-use")
unfolding get_vol get_vols live single
found_in_use = refl

-- A soft-deleted volume is not found any more.
found_deleted :
    get_vol fake (servicer v1_0_0) (some "v1") none (with_status "deleted")
    ≡ (ok (many []), with_status "deleted")
unfolding get_vol get_vols live single
found_deleted = refl

delete_body-absent_example :
    delete_body fake (servicer v1_0_0) request (with_status "deleted")
    ≡ (ok tt, with_status "deleted")
delete_body-absent_example =
    delete_body-absent fake (servicer v1_0_0) request (with_status "deleted")
      (with_status "deleted") found_deleted

delete_body-refused_example :
    (e : Fault) × (delete_body fake (servicer v1_0_0) request (with_status "in-use")
      ≡ (err e, with_status "in-use"))
    × (IsAbort failed_precondition e ⊎ IsAbort aborted e)
delete_body-refused_example =
    delete_body-refused fake (servicer v1_0_0) request (with_status "in-use") (with_status "in-use")
      (volume "v1" "data" "in-use") found_in_use refl

delete_body-deletes_example :
    delete_body fake (servicer v1_0_0) request (with_status "available")
    ≡ delete_or_mark fake
        (servicer v1_0_0)
        (volume "v1" "data" "available")
        []
        (with_status "available")
delete_body-deletes_example =
    delete_body-deletes fake (servicer v1_0_0) request (with_status "available")
      (with_status "available") (volume "v1" "data" "available") found_at_available
      (with_status "available") refl refl

-- The wait ends, without success, once the volume is in an error state.
wait_ends_example : (false ≡ false) × IsSettled (volume "v1" "data" "error_deleting")
unfolding wait poll delete_failed
wait_ends_example =
    wait_ends fake false 3 (volume "v1" "data" "error_deleting") ("deleted" ∷ [])
      (with_status "error_deleting") false (volume "v1" "data" "error_deleting")
      (with_status "error_deleting") refl refl
