-- ===== src/Snapshot/Handlers/Filtered.antt =====
-- `ListSnapshots` of ember_csi/base.py with the metadata kept by ember_csi/cl_crd.py: a filter that the request
-- leaves out is an empty text there, and not `None`.
use ember_csi.Base.{
  ◌≡◌, String, ◌&&◌, ◌||◌, truthy, true, false, Option, none, some, List, [], ◌∷◌, arith,
}
use ember_csi.Rpc.{ok, Exec, pure, ◌>>=◌}
use ember_csi.Rpc.Inversion.{bind-eq-ok}
use ember_csi.Cinder.{Snapshot, Connection, Cinder}
use ember_csi.Csi.{ListRequest, ListSnapshotsRequest, ListResponse, SnapshotMessage, Servicer}
use ember_csi.Controller.Paginate.{
  FloatTime, sort_by_date, start_after, page_from, page_by, page_back,
}
use ember_csi.Controller.List.{from_marker, page_of_sorted, paginate, convert_all}
use ember_csi.Snapshot.Handlers.{requested_snaps, list_snapshots}
use ember_csi.Resources.{Cro, CrdApi}
use ember_csi.Resources.Persistence.{BackendVolume, BaseDriver, get_snapshots}
use ember_csi.Resources.Persistence.Snapshots.{IsLabelled, get_snapshots_none}

abbrev objects : {R : Type 0} → List (R × Option String) → List R
objects [] = []
objects ((x, v) ∷ xs) = x ∷ objects xs

-- A page of no resources is empty.
paginate_none :
    (ft : FloatTime) (r : ListRequest) {W : Type 0} (w u : W) (xs : List Snapshot)
    (t : Option String)
    → paginate ft (λ (x : Snapshot). x.created_at) r [] w ≡ (ok (xs, t), u)
    → xs ≡ []
unfolding paginate page_of_sorted from_marker page_from page_by page_back sort_by_date start_after
paginate_none ft r w u xs t h = ground arith

module _ {W : Type 0} (ft : FloatTime) (cl : Cinder W) (s : Servicer) (api : CrdApi W)
    (vols : BaseDriver W BackendVolume) (snaps : BaseDriver W Snapshot)
    (conns : BaseDriver W Connection) (base_delete_key_value : String → Exec W (Unit {0})) where
  -- Cinderlib with the plugin in the place of its persistence, as far as snapshots are read.
  abbrev pub over_plugin : Cinder W
  over_plugin = record cl {
    get_snapshots = λ id name volume_id.
        get_snapshots api vols snaps conns base_delete_key_value id name volume_id >>= λ xs.
        pure (objects xs);
  }

  requested_none :
      (r : ListSnapshotsRequest) (w u : W) (xs : List Snapshot)
      → truthy r.source_volume_id || truthy r.snapshot_id ≡ true
      → truthy r.snapshot_id && truthy r.source_volume_id ≡ false
      → ((c : Cro) (x : W) → api.get_object r.snapshot_id w ≡ (ok c, x) → IsLabelled c.labels)
      → requested_snaps ft over_plugin s r w ≡ (ok xs, u)
      → xs ≡ []
  unfolding requested_snaps
  requested_none r w u xs filtered one labelled h =
      let (ys, x, found, same) =
        bind-eq-ok
          (get_snapshots api vols snaps conns base_delete_key_value (some r.snapshot_id) none
            (some r.source_volume_id))
          (λ ys. pure (objects ys)) w (rw (filtered, requested_snaps) at h) in
      let empty =
        get_snapshots_none api vols snaps conns base_delete_key_value r.snapshot_id
          r.source_volume_id w x ys one labelled found in
      ground arith

  -- With metadata in custom resources whose labels are not empty, a listing that is filtered by a
  -- snapshot or by a volume, and not by both, reports no snapshot, whatever is stored.
  pub list_snapshots_filtered :
      (r : ListSnapshotsRequest) (w u : W) (resp : ListResponse SnapshotMessage)
      → truthy r.source_volume_id || truthy r.snapshot_id ≡ true
      → truthy r.snapshot_id && truthy r.source_volume_id ≡ false
      → ((c : Cro) (x : W) → api.get_object r.snapshot_id w ≡ (ok c, x) → IsLabelled c.labels)
      → list_snapshots ft over_plugin s r w ≡ (ok resp, u)
      → resp.entries ≡ []
  unfolding list_snapshots requested_snaps convert_all
  list_snapshots_filtered r w u resp filtered one labelled h =
      let (xs, x1, e1, k1) = bind-eq-ok (requested_snaps ft over_plugin s r) _ w h in
      let empty = requested_none r w x1 xs filtered one labelled e1 in
      let (page, x2, e2, k2) =
        bind-eq-ok (paginate ft (λ (x : Snapshot). x.created_at) r.list xs) _ x1 k1 in
      let nothing = paginate_none ft r.list x1 x2 page.0 page.1 (rw empty at e2) in ground arith
