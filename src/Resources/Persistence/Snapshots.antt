-- ===== src/Resources/Persistence/Snapshots.antt =====
-- The snapshots that `CRDPersistence` of ember_csi/cl_crd.py finds where a filter is an empty text.
use ember_csi.Base.{
  ◌≡◌, ◌≢◌, refl, String, ◌&&◌, eq_iff, truthy, Bool, true, false, Option, none, some, List, [],
  ◌∷◌, arith,
}
use ember_csi.Base.Dict
use ember_csi.Base.Dict.{Dict}
use ember_csi.Rpc.{api_error, Outcome, ok, err, Exec}
use ember_csi.Rpc.Inversion.{bind-eq-ok}
use ember_csi.Cinder.{Snapshot, Connection}
use ember_csi.Resources.{Cro, CrdApi, Kind, labels_fit, select_objects, selector_of, load_all, get}
use ember_csi.Resources.Persistence.{BackendVolume, BaseDriver, snapshot_class, get_snapshots}

-- No label of the resource that is looked for is empty.
abbrev pub IsLabelled : Dict String → Type 0
unfolding Dict.lookup
IsLabelled labels =
    (Dict.lookup "snapshot_id" labels ≢ some "") × (Dict.lookup "volume_id" labels ≢ some "")

module _ {W R : Type 0} (api : CrdApi W) (cls : Kind R) where
  -- A text that is compared with a label fits no empty one.
  labels_misfit :
      (labels : Dict String) (id volume_id : String)
      → truthy id && truthy volume_id ≡ false
      → IsLabelled labels
      → labels_fit api cls labels (("snapshot_id", id) ∷ ("volume_id", volume_id) ∷ []) ≢ ok true
  unfolding labels_fit
  labels_misfit labels id volume_id missing (no_id, no_volume) =
      go (Dict.lookup "snapshot_id" labels) (Dict.lookup "volume_id" labels) refl refl
    where
      go :
          (a b : Option String)
          → Dict.lookup "snapshot_id" labels ≡ a
          → Dict.lookup "volume_id" labels ≡ b
          → labels_fit api cls labels (("snapshot_id", id) ∷ ("volume_id", volume_id) ∷ [])
            ≢ ok true
      go none b e f fits = ground arith
      go (some u) none e f fits = ground arith
      go (some u) (some v) e f fits =
          ground (arith, eq_iff u id, eq_iff v volume_id, eq_iff id "", eq_iff volume_id "")

  -- Whatever the API returns by the id, nothing is found.
  select_objects_none :
      (id volume_id : String) (w u : W) (cs : List Cro)
      → truthy id && truthy volume_id ≡ false
      → ((c : Cro) (x : W) → api.get_object id w ≡ (ok c, x) → IsLabelled c.labels)
      → select_objects api cls (("snapshot_id", id) ∷ ("volume_id", volume_id) ∷ []) (some id) w
        ≡ (ok cs, u)
      → cs ≡ []
  unfolding select_objects
  select_objects_none id volume_id w u cs missing labelled found = by_id (api.get_object id w) refl
    where
      by_label :
          (c : Cro) (x : W) (q : Outcome Bool)
          → api.get_object id w ≡ (ok c, x)
          → labels_fit api cls c.labels (("snapshot_id", id) ∷ ("volume_id", volume_id) ∷ []) ≡ q
          → cs ≡ []
      by_label c x (err e) there fits = ground arith
      by_label c x (ok true) there fits =
          absurd (labels_misfit c.labels id volume_id missing (labelled c x there) fits)
      by_label c x (ok false) there fits = ground arith

      by_id : (p : Outcome Cro × W) → api.get_object id w ≡ p → cs ≡ []
      by_id (ok c, x) there =
          by_label c x
            (labels_fit api cls c.labels (("snapshot_id", id) ∷ ("volume_id", volume_id) ∷ []))
            there refl
      by_id (err (api_error n), x) there = ground arith
      by_id (err e, x) there = ground arith

module _ {W : Type 0} (api : CrdApi W) (vols : BaseDriver W BackendVolume)
    (snaps : BaseDriver W Snapshot) (conns : BaseDriver W Connection)
    (base_delete_key_value : String → Exec W (Unit {0})) where
  pub get_snapshots_none :
      (id volume_id : String) (w u : W) (xs : List (Snapshot × Option String))
      → truthy id && truthy volume_id ≡ false
      → ((c : Cro) (x : W) → api.get_object id w ≡ (ok c, x) → IsLabelled c.labels)
      → get_snapshots api vols snaps conns base_delete_key_value (some id) none (some volume_id) w
        ≡ (ok xs, u)
      → xs ≡ []
  unfolding get_snapshots get selector_of snapshot_class Dict.lookup load_all
  get_snapshots_none id volume_id w u xs missing labelled h =
      let cls = snapshot_class api vols snaps conns base_delete_key_value in
      let (cs, x, found, loaded) =
        bind-eq-ok
          (select_objects api cls (("snapshot_id", id) ∷ ("volume_id", volume_id) ∷ []) (some id))
          (λ cs w. (load_all api cls cs, w)) w h in
      let empty = select_objects_none api cls id volume_id w x cs missing labelled found in
      ground arith
