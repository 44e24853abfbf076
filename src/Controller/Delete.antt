-- ===== src/Controller/Delete.antt =====
-- `DeleteVolume` of ember_csi/base.py.
pub mod Outcomes
use ember_csi.Base.{
  ◌==◌, ◌<>◌, has_infix, elem, Bool, true, false, not, ◌&&◌, none, some, List, [], ◌∷◌,
  if◌then◌else◌,
}
use ember_csi.Rpc.{
  failed_precondition, aborted, unknown, Exec, pure, abort_with, abort_if, try_except, ◌>>=◌, ◌>>◌,
}
use ember_csi.Cinder.{Volume, Snapshot, Cinder}
use ember_csi.Csi.{DeleteVolumeRequest, Servicer}
use ember_csi.Identity.Lookup.{Found, one, many, get_vol}
use ember_csi.Rpc.{attribute_error, raise}
use ember_csi.Controller.Wait.{wait}

abbrev is_empty {ℓ} : {A : Type ℓ} → List A → Bool
is_empty [] = true
is_empty (_ ∷ _) = false

module _ {W : Type 0} (cl : Cinder W) (s : Servicer) where
  -- `if vol.status == 'deleting': self._wait(vol, ('deleted',))`
  unfoldable pub wait_deleted : Volume → Exec W Volume
  wait_deleted vol =
      if vol.status == "deleting"
      then (wait cl false s.fuel vol ("deleted" ∷ []) >>= λ (_, v). pure v)
      else pure vol

  -- A volume with snapshots is only marked. The text of the error stands for `'Error: %s' % exc`.
  unfoldable pub delete_or_mark : Volume → List Snapshot → Exec W (Unit {0})
  delete_or_mark vol [] = try_except (cl.delete vol) (abort_with unknown "Error")
  delete_or_mark vol (_ ∷ _) = cl.save (record vol { status = "deleted" })

  unfoldable pub remove_volume : Volume → Exec W (Unit {0})
  remove_volume vol =
      if vol.status == "deleted"
      then pure tt
      else (cl.snapshots vol >>= λ snaps. delete_or_mark vol snaps)

  -- The part that has found one volume.
  unfoldable pub delete_found : Volume → Exec W (Unit {0})
  delete_found vol = do
    abort_if (vol.status == "in-use") failed_precondition "Volume in use"
    abort_if
        (not (elem vol.status ("available" ∷ "deleting" ∷ []))
          && not (has_infix vol.status "error"))
        aborted ("Operation pending for volume (" <> (vol.status <> ")"))
    vol' ← wait_deleted vol
    remove_volume vol'

  -- A list of several volumes is not empty, and has no `status`.
  unfoldable pub delete_any : Found → Exec W (Unit {0})
  delete_any (one vol) = delete_found vol
  delete_any (many []) = pure tt
  delete_any (many (_ ∷ _)) = raise (attribute_error "status")

  -- The body of `DeleteVolume`; its response has no content.
  unfoldable pub delete_body : DeleteVolumeRequest → Exec W (Unit {0})
  delete_body r = do found ← get_vol cl s (some r.volume_id) none; delete_any found
