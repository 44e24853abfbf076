-- ===== src/Examples/Snapshot.antt =====
-- The snapshot handlers at concrete stores.
use ember_csi.Base.{◌≡◌, refl, String, ℕ, ◌*◌, ◌/◌, none, List, [], ◌∷◌}
use ember_csi.Rpc.{ok, err, abort, already_exists, attribute_error}
use ember_csi.Cinder.{Snapshot}
use ember_csi.Csi.{CreateSnapshotRequest, DeleteSnapshotRequest, v1_0_0}
use ember_csi.Identity.Lookup
use ember_csi.Identity.Lookup.{get_vol, get_vols, live, or_absent}
use ember_csi.Snapshot.Lookup.{get_snap, single}
use ember_csi.Controller.Paginate.{FloatTime}
use ember_csi.Snapshot.Handlers.{
  create_snapshot_body, delete_snapshot_body, existing_or_new_snap, delete_snap, reclaim,
  delete_if_last,
}
use ember_csi.Samples.{Store, store, volume, snapshot, fake, servicer}

abbrev clock : FloatTime
clock = record {
  Float = ℕ;
  total_seconds = λ d. d;
  times = λ x n. x * n;
  over = λ x n. x / n;
  int = λ x. x;
  text = λ n. "";
  parse = λ t. none;
  from_timestamp = λ x. x;
}

abbrev request : String → CreateSnapshotRequest
request volume_id = record { name = "s1"; source_volume_id = volume_id }

abbrev taken : Store
taken = store (volume "v1" "data" "available" ∷ []) (snapshot "s1" "v1" ∷ []) [] []

-- The name of a snapshot of another volume.
other_volume :
    create_snapshot_body clock fake (servicer v1_0_0) (request "v2") taken
    ≡ (err (abort already_exists "Snapshot s1 from v2 exists for volume v1"), taken)
unfolding create_snapshot_body existing_or_new_snap get_snap single
other_volume = refl

abbrev bare : Store
bare = store [] [] [] []

-- The volume does not exist: building the details of the error fails.
absent_volume :
    create_snapshot_body clock fake (servicer v1_0_0) (request "v1") bare
    ≡ (err (attribute_error "volume_id"), bare)
unfolding create_snapshot_body existing_or_new_snap or_absent get_snap single get_vol get_vols live
    Lookup.single
absent_volume = refl

abbrev delete_request : DeleteSnapshotRequest
delete_request = record { snapshot_id = "s1" }

abbrev marked : List Snapshot → Store
marked snaps = store (volume "v1" "data" "deleted" ∷ []) snaps [] []

-- The last snapshot of a volume that is marked as deleted, and one of two.
last_of_marked :
    delete_snapshot_body clock fake
      (servicer v1_0_0)
      delete_request
      (marked (snapshot "s1" "v1" ∷ []))
    ≡ (ok tt, bare)
unfolding delete_snapshot_body delete_snap reclaim delete_if_last get_snap single
last_of_marked = refl

one_of_two :
    delete_snapshot_body clock fake
      (servicer v1_0_0)
      delete_request
      (marked (snapshot "s1" "v1" ∷ snapshot "s2" "v1" ∷ []))
    ≡ (ok tt, marked (snapshot "s2" "v1" ∷ []))
unfolding delete_snapshot_body delete_snap reclaim delete_if_last get_snap single
one_of_two = refl
