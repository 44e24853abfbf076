-- ===== src/Examples/Volumes.antt =====
-- The volumes and snapshots of the persistence on a small cluster.
use ember_csi.Base.{ℕ, eq_iff, arith, ◌≡◌, refl, String, true, none, some, [], ◌∷◌}
use ember_csi.Base.Dict.{lookup}
use ember_csi.Base.Int.{pos}
use ember_csi.Rpc.{ok}
use ember_csi.Cinder.{Connection}
use ember_csi.Csi.{ListSnapshotsRequest, ListResponse, SnapshotMessage, v1_0_0}
use ember_csi.Controller.Paginate.{FloatTime, page_from, page_by, sort_by_date}
use ember_csi.Resources.{Cro, get, select_objects, selector_of, labels_fit, load_all}
use ember_csi.Resources.Persistence.Snapshots.{IsLabelled}
use ember_csi.Snapshot.Handlers.Filtered.{over_plugin, list_snapshots_filtered}
use ember_csi.Snapshot.Handlers.{requested_snaps, list_snapshots}
use ember_csi.Controller.List.{paginate, page_of_sorted, convert_all}
use ember_csi.Resources.Persistence.{
  backend_object, BackendVolume, backend_label, BaseDriver, get_volumes, set_volume, get_snapshots,
  snapshot_class,
}
use ember_csi.Resources.Persistence.Volumes.{get_volumes-set_volume}
use ember_csi.Samples.{volume, snapshot, servicer}
use ember_csi.Samples.Cluster.{Cluster, cluster_api, cluster_laws, view, no_cinder}

abbrev stored_volume : BackendVolume
stored_volume = record { volume = volume "v1" "data" "available"; backend = backend_object "lvm" }

-- One class of objects of which there is one.
abbrev driver : {R : Type 0} → R → BaseDriver Cluster R
driver r = record {
  to_jsons = λ x. "{}";
  load = λ t. ok r;
  has_new_id = λ x. true;
  base_set = λ x w. (ok tt, w);
  base_delete = λ x w. (ok tt, w);
}

abbrev conn : Connection
conn = record { id = "c1"; volume_id = "v1"; attached_host = "n1"; attach_mode = "rw" }

abbrev bare : Cluster
bare = record { objects = []; writes = 0 }

-- It is found by its name, and not by another backend.
get_volumes-set_volume_example :
    (t : String) × (u : Cluster) × (set_volume cluster_api
        (driver stored_volume)
        (driver (snapshot "s1" "v1"))
        (driver conn)
        (λ k w. (ok tt, w))
        (stored_volume, none)
        bare
      ≡ (ok (stored_volume, some t), u))
    × (get_volumes cluster_api
          (driver stored_volume)
          (driver (snapshot "s1" "v1"))
          (driver conn)
          (λ k w. (ok tt, w))
          (some "v1")
          (some "data")
          (some "lvm")
          u
        ≡ (ok ((stored_volume, some t) ∷ []), u))
unfolding backend_label lookup
get_volumes-set_volume_example =
    get_volumes-set_volume cluster_api view cluster_laws (driver stored_volume)
      (driver (snapshot "s1" "v1")) (driver conn) (λ k w. (ok tt, w)) stored_volume (some "data")
      (some "lvm") bare refl (λ x. refl) (λ e. refl)

-- A snapshot that is stored, and a listing that asks for it by its id alone.
abbrev taken : Cro
taken = record {
  name = "s1";
  labels = ("snapshot_id", "s1") ∷ ("snapshot_name", "s1") ∷ ("volume_id", "v1") ∷ [];
  annotations = ("json", "{}") ∷ [];
  resource_version = some "v";
}

abbrev holding : Cluster
holding = record { objects = ("s1", taken) ∷ []; writes = 1 }

abbrev clock : FloatTime
clock = record {
  Float = ℕ;
  total_seconds = λ d. d;
  times = λ x n. x;
  over = λ x n. x;
  int = λ x. x;
  text = λ n. "";
  parse = λ t. none;
  from_timestamp = λ x. x;
}

abbrev by_id : ListSnapshotsRequest
by_id = record {
  list = record { max_entries = pos 0; starting_token = "" };
  source_volume_id = "";
  snapshot_id = "s1";
}

abbrev nothing : ListResponse SnapshotMessage
nothing = record { entries = []; next_token = none }

taken-IsLabelled :
    (c : Cro) (x : Cluster) → cluster_api.get_object "s1" holding ≡ (ok c, x) → IsLabelled c.labels
unfolding lookup
taken-IsLabelled c x e =
    let same : taken ≡ c = ground arith in
    rw (← same) ((λ a. ground (arith, eq_iff "s1" "")), (λ a. ground (arith, eq_iff "v1" "")))

-- The empty volume of the request fits no label.
listed :
    list_snapshots clock
      (over_plugin clock no_cinder
        (servicer v1_0_0)
        cluster_api
        (driver stored_volume)
        (driver (snapshot "s1" "v1"))
        (driver conn)
        (λ k w. (ok tt, w)))
      (servicer v1_0_0)
      by_id
      holding
    ≡ (ok nothing, holding)
unfolding lookup list_snapshots requested_snaps get_snapshots get select_objects selector_of
    snapshot_class labels_fit load_all paginate page_of_sorted convert_all page_from page_by
    sort_by_date
listed = refl

list_snapshots_filtered_example : nothing.entries ≡ []
list_snapshots_filtered_example =
    list_snapshots_filtered clock no_cinder (servicer v1_0_0) cluster_api (driver stored_volume)
      (driver (snapshot "s1" "v1")) (driver conn) (λ k w. (ok tt, w)) by_id holding holding nothing
      refl refl taken-IsLabelled listed
