-- ===== src/Snapshot/Handlers/Outcomes.antt =====
-- `ListSnapshots` of ember_csi/base.py with no filter.
use ember_csi.Base.{◌≡◌, refl, ap, truthy, none, some, List, [], ◌∷◌, ◌++◌, arith}
use ember_csi.Rpc.{ok}
use ember_csi.Cinder.{Volume, Snapshot, Cinder}
use ember_csi.Csi.{ListSnapshotsRequest, Servicer}
use ember_csi.Identity.Lookup.{get_vols}
use ember_csi.Controller.Paginate.{FloatTime}
use ember_csi.Snapshot.Handlers.{snaps_of_volumes, requested_snaps}

module _ {W : Type 0} (ft : FloatTime) (cl : Cinder W) (s : Servicer) where
  -- The snapshots of the volumes, in the order of the volumes.
  abbrev pub snaps_by : (Volume → List Snapshot) → List Volume → List Snapshot
  snaps_by f [] = []
  snaps_by f (v ∷ vs) = f v ++ snaps_by f vs

  snaps_of_volumes_all :
      (f : Volume → List Snapshot) (vs : List Volume) (u : W)
      → ((v : Volume) → cl.get_snapshots none none (some v.id) u ≡ (ok (f v), u))
      → snaps_of_volumes ft cl s vs u ≡ (ok (snaps_by f vs), u)
  unfolding snaps_of_volumes
  snaps_of_volumes_all f [] u reads = refl
  snaps_of_volumes_all f (v ∷ vs) u reads = rw (reads v, snaps_of_volumes_all f vs u reads) refl

  -- A listing with no filter is about the snapshots of the live volumes, volume by volume, and about
  -- no others, where reading the snapshots does not change the state.
  pub requested_snaps_live :
      (r : ListSnapshotsRequest) (f : Volume → List Snapshot) (vs : List Volume) (w u : W)
      → r.source_volume_id ≡ ""
      → r.snapshot_id ≡ ""
      → get_vols cl s none none w ≡ (ok vs, u)
      → ((v : Volume) → cl.get_snapshots none none (some v.id) u ≡ (ok (f v), u))
      → requested_snaps ft cl s r w ≡ (ok (snaps_by f vs), u)
  unfolding requested_snaps
  requested_snaps_live r f vs w u no_volume no_snap vols reads =
      ground (arith, ap truthy no_volume, ap truthy no_snap, snaps_of_volumes_all f vs u reads)
