-- ===== src/Controller/Delete/Outcomes.antt =====
-- `DeleteVolume` of ember_csi/base.py, by the status of the volume that the request finds.
use ember_csi.Base.{
  String, ◌≡◌, ap, has_infix, elem, ◌==◌, ◌<>◌, Bool, false, ◌||◌, some, none, List, [], ◌∷◌, ◌⊎◌,
  inl, inr, Bool-cases, arith,
}
use ember_csi.Rpc.{failed_precondition, aborted, Fault, IsAbort, ok, err, abort}
use ember_csi.Rpc.Inversion.{bind-ok}
use ember_csi.Cinder.{Volume, Snapshot, Cinder}
use ember_csi.Csi.{DeleteVolumeRequest, Servicer}
use ember_csi.Identity.Lookup.{one, many, get_vol}
use ember_csi.Controller.Delete.{
  wait_deleted, delete_or_mark, remove_volume, delete_found, delete_any, delete_body,
}

-- The states in which a volume may be deleted, or is being deleted by another request.
abbrev pub is_deletable : String → Bool
is_deletable status = elem status ("available" ∷ "deleting" ∷ []) || has_infix status "error"

module _ {W : Type 0} (cl : Cinder W) (s : Servicer) (r : DeleteVolumeRequest) (w u : W) where
  -- Deleting a volume that does not exist succeeds and changes nothing after the lookup.
  pub delete_body-absent :
      get_vol cl s (some r.volume_id) none w ≡ (ok (many []), u) → delete_body cl s r w ≡ (ok tt, u)
  unfolding delete_body delete_any
  delete_body-absent found = bind-ok (get_vol cl s (some r.volume_id) none) _ found

  module _ (v : Volume) (found : get_vol cl s (some r.volume_id) none w ≡ (ok (one v), u)) where
    delete_body-found : delete_body cl s r w ≡ delete_found cl s v u
    unfolding delete_body delete_any
    delete_body-found = bind-ok (get_vol cl s (some r.volume_id) none) _ found

    -- A volume that is in use, or on which an operation is pending, is left alone: the request is
    -- refused with FAILED_PRECONDITION or ABORTED, in the state after the lookup.
    pub delete_body-refused :
        is_deletable v.status ≡ false
        → (e : Fault) × (delete_body cl s r w ≡ (err e, u))
          × (IsAbort failed_precondition e ⊎ IsAbort aborted e)
    unfolding delete_found
    delete_body-refused busy = elim (Bool-cases (v.status == "in-use")) [
      | inl used ↦ (
        abort failed_precondition "Volume in use",
        ground (arith, delete_body-found),
        ground arith,
      )
      | inr free ↦ (
        abort aborted ("Operation pending for volume (" <> (v.status <> ")")),
        ground (arith, delete_body-found),
        ground arith,
      )
    ]

    -- An available volume with snapshots is only marked as deleted, so that its snapshots live on.
    pub delete_body-marks :
        (x : Snapshot) (xs : List Snapshot) (u' : W)
        → v.status ≡ "available"
        → cl.snapshots v u ≡ (ok (x ∷ xs), u')
        → delete_body cl s r w ≡ cl.save (record v { status = "deleted" }) u'
    unfolding delete_found wait_deleted remove_volume delete_or_mark
    delete_body-marks x xs u' st snaps = ground (
      arith,
      delete_body-found,
      ap (λ t. t == "available") st,
      ap (λ t. t == "in-use") st,
      ap (λ t. t == "deleting") st,
      ap (λ t. t == "deleted") st,
    )

    -- An available volume with no snapshot is deleted in the backend, and a failure of the backend is
    -- reported as UNKNOWN.
    pub delete_body-deletes :
        (u' : W)
        → v.status ≡ "available"
        → cl.snapshots v u ≡ (ok [], u')
        → delete_body cl s r w ≡ delete_or_mark cl s v [] u'
    unfolding delete_found wait_deleted remove_volume
    delete_body-deletes u' st snaps = ground (
      arith,
      delete_body-found,
      ap (λ t. t == "available") st,
      ap (λ t. t == "in-use") st,
      ap (λ t. t == "deleting") st,
      ap (λ t. t == "deleted") st,
    )
