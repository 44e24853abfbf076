-- ===== src/Resources/Persistence/Volumes.antt =====
-- The volumes that `CRDPersistence` of ember_csi/cl_crd.py stores and finds.
use ember_csi.Base.{
  ◌≡◌, refl, eq_refl, String, ◌==◌, Bool, true, false, ◌&&◌, Option, none, some, [], ◌∷◌, arith,
  if◌then◌else◌,
}
use ember_csi.Base.Dict
use ember_csi.Base.Dict.{Dict}
use ember_csi.Rpc.{ok, Exec}
use ember_csi.Cinder.{Snapshot, Connection}
use ember_csi.Resources.{Cro, CrdApi, set, apply, selector_of, labels_fit, load_object}
use ember_csi.Resources.Laws.{stamped, ApiLaws}
use ember_csi.Resources.Saves.{apply_saves, get_by_id}
use ember_csi.Resources.Persistence.{
  BackendVolume, backend_label, volume_labels, BaseDriver, volume_class, get_volumes, store_object,
  set_volume,
}

-- Whether a filter lets a label pass.
abbrev pub passes : Option String → String → Bool
passes none label = true
passes (some t) label = label == t

module _ {W : Type 0} (api : CrdApi W) (view : W → String → Option Cro) (laws : ApiLaws api view)
    (vols : BaseDriver W BackendVolume) (snaps : BaseDriver W Snapshot)
    (conns : BaseDriver W Connection) (base_delete_key_value : String → Exec W (Unit {0})) where
  abbrev volume_cro : BackendVolume → Cro
  volume_cro v = record {
    name = v.volume.id;
    labels = volume_labels v;
    annotations = ("json", vols.to_jsons v) ∷ [];
    resource_version = none;
  }

  -- A write of the volume, new or not.
  volume_applied :
      (v : BackendVolume) (is_new : Bool) (w : W)
      → (is_new ≡ true → view w v.volume.id ≡ none)
      → (t : String) × (u : W) × (apply api v.volume.id (volume_cro v) is_new w
          ≡ (ok (stamped t (volume_cro v)), u))
        × (view u v.volume.id ≡ some (stamped t (volume_cro v)))
  unfolding apply
  volume_applied v true w fresh =
      let (t, u, made, shown) = laws.create_absent w (volume_cro v) (fresh refl) in
      (t, u, made, ground (arith, shown v.volume.id, eq_refl v.volume.id))
  volume_applied v false w fresh =
      let (t, u, made, shown) = apply_saves api view laws (volume_cro v) w refl in
      (t, u, unfold apply in made, ground (arith, shown v.volume.id, eq_refl v.volume.id))

  -- The labels of a volume pass exactly the filters that they fit.
  labels_fit-passes :
      (v : BackendVolume) (name backend : Option String)
      → labels_fit api (volume_class api vols snaps conns base_delete_key_value) (volume_labels v) (
          selector_of (
            ("volume_id", some v.volume.id)
            ∷ ("volume_name", name)
            ∷ ("backend_name", backend)
            ∷ []))
        ≡ ok (passes name v.volume.name && passes backend (backend_label v.backend))
  unfolding labels_fit selector_of volume_labels Dict.lookup
  labels_fit-passes v none none = ground (arith, eq_refl v.volume.id)
  labels_fit-passes v none (some b) = ground (arith, eq_refl v.volume.id)
  labels_fit-passes v (some n) none = ground (arith, eq_refl v.volume.id)
  labels_fit-passes v (some n) (some b) = ground (arith, eq_refl v.volume.id)

  load_volume :
      (v : BackendVolume) (t : String)
      → vols.load (vols.to_jsons v) ≡ ok v
      → load_object api
          (volume_class api vols snaps conns base_delete_key_value)
          (stamped t (volume_cro v))
        ≡ ok (v, some t)
  unfolding load_object volume_class Dict.lookup
  load_volume v t loads = rw (load_object, loads) refl

  stored :
      (v : BackendVolume) (w : W) (t : String) (u : W)
      → apply api v.volume.id (volume_cro v) (vols.has_new_id v) w
        ≡ (ok (stamped t (volume_cro v)), u)
      → vols.base_set v u ≡ (ok tt, u)
      → set_volume api vols snaps conns base_delete_key_value (v, none) w ≡ (ok (v, some t), u)
  unfolding set_volume store_object set volume_class
  stored v w t u done base = rw (done, base) refl

  selected :
      (v : BackendVolume) (name backend : Option String)
      → Dict.lookup "volume_id" (
          selector_of (
            ("volume_id", some v.volume.id)
            ∷ ("volume_name", name)
            ∷ ("backend_name", backend)
            ∷ []))
        ≡ some v.volume.id
  unfolding selector_of Dict.lookup
  selected v name backend = refl

  -- Over an API that obeys its laws, a volume that is stored without a version is found by its id
  -- exactly where its name and its backend pass the filters, with the version of the write. A volume
  -- with a new id must not be there before; cinderlib must load what it has printed, and the base class
  -- must leave the cluster alone.
  pub get_volumes-set_volume :
      (v : BackendVolume) (name backend : Option String) (w : W)
      → vols.load (vols.to_jsons v) ≡ ok v
      → ((x : W) → vols.base_set v x ≡ (ok tt, x))
      → (vols.has_new_id v ≡ true → view w v.volume.id ≡ none)
      → (t : String) × (u : W) × (set_volume api vols snaps conns base_delete_key_value (v, none) w
          ≡ (ok (v, some t), u))
        × (get_volumes api vols snaps conns base_delete_key_value (some v.volume.id) name backend u
            ≡ (
              ok (
                  if passes name v.volume.name && passes backend (backend_label v.backend)
                  then (v, some t) ∷ []
                  else []),
              u,
            ))
  unfolding get_volumes volume_class selector_of
  get_volumes-set_volume v name backend w loads base fresh =
      let (t, u, done, there) = volume_applied v (vols.has_new_id v) w fresh in
      (
        t,
        u,
        stored v w t u done (base u),
        get_by_id api (volume_class api vols snaps conns base_delete_key_value) view laws _
            v.volume.id (stamped t (volume_cro v)) _ (v, some t) u (selected v name backend) there
            (labels_fit-passes v name backend) (load_volume v t loads),
      )
