-- ===== src/Snapshot/Handlers.antt =====
-- `CreateSnapshot`, `DeleteSnapshot` and `ListSnapshots` of ember_csi/base.py, with
-- `_convert_snapshot_type` of ember_csi/v0_3_0/csi.py and ember_csi/v1_0_0/csi.py.
pub mod Outcomes
pub mod Filtered
use ember_csi.Base.{
  ℕ, String, truthy, ◌==◌, ◌||◌, ◌<>◌, Bool, true, false, not, Option, none, some, List, [], ◌∷◌,
  ◌++◌, if◌then◌else◌,
}
use ember_csi.Rpc.{already_exists, attribute_error, Exec, pure, raise, abort_if, ◌>>=◌, ◌>>◌}
use ember_csi.Cinder.{Volume, Snapshot, Cinder}
use ember_csi.Csi.{
  CreateSnapshotRequest, DeleteSnapshotRequest, ListSnapshotsRequest, SnapshotMessage, Stamp,
  timestamp, in_nanoseconds, ListResponse, SpecVersion, v0_2_0, v0_3_0, v1_0_0, Servicer,
}
use ember_csi.Identity.Lookup.{Found, get_vol, get_vols, or_absent}
use ember_csi.Snapshot.Lookup.{FoundSnap, one, many, get_snap}
use ember_csi.Controller.Paginate.{FloatTime, nanoseconds}
use ember_csi.Controller.List.{paginate, convert_all, token_field}

module _ {W : Type 0} (ft : FloatTime) (cl : Cinder W) (s : Servicer) where
  open ft use {total_seconds, times, int}

  -- `int(common.date_to_nano(date))` reads back the text of a whole number.
  unfoldable pub stamp_of : SpecVersion → ℕ → Exec W Stamp
  stamp_of v0_2_0 date = raise (attribute_error "_convert_snapshot_type")
  stamp_of v0_3_0 date = pure (in_nanoseconds (int (times (total_seconds date) nanoseconds)))
  stamp_of v1_0_0 date = pure (timestamp date)

  unfoldable pub convert_snapshot_type : Snapshot → Exec W SnapshotMessage
  convert_snapshot_type snap = do
    stamp ← stamp_of s.version snap.created_at
    pure (record {
      snapshot_id = snap.id;
      source_volume_id = snap.volume_id;
      creation_time = stamp;
      ready_to_use = true;
    })

  -- An existing snapshot of the name, or a new one where there is not exactly one. The details of
  -- NOT_FOUND are built from `request.volume_id`, and the request has no such field.
  unfoldable pub existing_or_new_snap : CreateSnapshotRequest → FoundSnap → Exec W Snapshot
  existing_or_new_snap r (one snap) = do
    abort_if (not (r.source_volume_id == snap.volume_id)) already_exists (
        "Snapshot "
        <> (r.name
            <> (" from " <> (r.source_volume_id <> (" exists for volume " <> snap.volume_id)))))
    pure snap
  existing_or_new_snap r (many snaps) = do
    found ← get_vol cl s (some r.source_volume_id) none
    vol ← or_absent found "create_snapshot" (raise (attribute_error "volume_id"))
    cl.create_snapshot vol r.name

  -- The body of `CreateSnapshot`.
  unfoldable pub create_snapshot_body : CreateSnapshotRequest → Exec W SnapshotMessage
  create_snapshot_body r = do
    found ← get_snap cl none (some r.name) none
    snap ← existing_or_new_snap r found
    convert_snapshot_type snap

  -- A volume that was deleted while it had snapshots goes with the last of them.
  unfoldable pub delete_if_last : Volume → List Snapshot → Exec W (Unit {0})
  delete_if_last vol [] = cl.delete vol
  delete_if_last vol (_ ∷ _) = pure tt

  unfoldable pub reclaim : Volume → Exec W (Unit {0})
  reclaim vol =
      if vol.status == "deleted"
      then (cl.snapshots vol >>= λ snaps. delete_if_last vol snaps)
      else pure tt

  unfoldable pub delete_snap : FoundSnap → Exec W (Unit {0})
  delete_snap (one snap) = do cl.delete_snapshot snap; vol ← cl.snapshot_volume snap; reclaim vol
  delete_snap (many []) = pure tt
  delete_snap (many (_ ∷ _)) = raise (attribute_error "delete")

  -- The body of `DeleteSnapshot`; its response has no content.
  unfoldable pub delete_snapshot_body : DeleteSnapshotRequest → Exec W (Unit {0})
  delete_snapshot_body r = do found ← get_snap cl (some r.snapshot_id) none none; delete_snap found

  -- The loop over the volumes.
  unfoldable pub snaps_of_volumes : List Volume → Exec W (List Snapshot)
  snaps_of_volumes [] = pure []
  snaps_of_volumes (v ∷ vs) = do
    snaps ← cl.get_snapshots none none (some v.id)
    more ← snaps_of_volumes vs
    pure (snaps ++ more)

  unfoldable pub requested_snaps : ListSnapshotsRequest → Exec W (List Snapshot)
  requested_snaps r =
      if not (truthy r.source_volume_id || truthy r.snapshot_id)
      then (get_vols cl s none none >>= λ vols. snaps_of_volumes vols)
      else cl.get_snapshots (some r.snapshot_id) none (some r.source_volume_id)

  unfoldable pub list_snapshots : ListSnapshotsRequest → Exec W (ListResponse SnapshotMessage)
  list_snapshots r = do
    snaps ← requested_snaps r
    (selected, token) ← paginate ft (λ (x : Snapshot). x.created_at) r.list snaps
    entries ← convert_all convert_snapshot_type selected
    pure (record { entries = entries; next_token = token_field token })
