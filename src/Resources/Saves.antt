-- ===== src/Resources/Saves.antt =====
-- The objects that `CRD.set` and `CRD.delete` of ember_csi/cl_crd.py leave in the cluster.
use ember_csi.Base.{
  ◌≡◌, ◌≢◌, refl, eq_iff, String, ◌==◌, ◌<>◌, Bool, true, false, Option, none, some, [], ◌∷◌, arith,
  if◌then◌else◌,
}
use ember_csi.Base.Dict
use ember_csi.Base.Dict.{Dict}
use ember_csi.Rpc.{api_error, ok, err}
use ember_csi.Rpc.Inversion.{bind-ok}
use ember_csi.Resources.{
  Cro, CrdApi, Kind, replace_found, replace_or_create, apply_known, apply, set, delete, get,
  found_object, select_objects, selector_of, labels_fit, load_all, load_object,
}
use ember_csi.Resources.Laws.{stamped, ApiLaws}

module _ {W : Type 0} (api : CrdApi W) (view : W → String → Option Cro)
    (laws : ApiLaws api view) where
  -- A body with no version is there afterwards, by its name.
  pub apply_saves :
      (c : Cro) (w : W)
      → c.resource_version ≡ none
      → (v : String) × (u : W) × (apply api c.name c false w ≡ (ok (stamped v c), u))
        × ((n : String) → view u n ≡ (if c.name == n then some (stamped v c) else view w n))
  unfolding apply apply_known replace_or_create replace_found
  apply_saves c w unversioned = at_once (view w c.name) refl
    where
      at_once :
          (found : Option Cro)
          → view w c.name ≡ found
          → (v : String) × (u : W) × (apply api c.name c false w ≡ (ok (stamped v c), u))
            × ((n : String) → view u n ≡ (if c.name == n then some (stamped v c) else view w n))
      at_once none absent =
          let (v, u, made, shown) = laws.create_absent w c absent in
          let read = laws.get_absent w c.name absent in (v, u, ground arith, shown)
      at_once (some d) there =
          let read = laws.get_there w c.name d there in
          let (v, u, made, shown) =
            laws.replace_current w c.name (record c { resource_version = d.resource_version }) d
              there refl in
          (v, u, ground arith, shown)

module _ {W R : Type 0} (api : CrdApi W) (cls : Kind R) (view : W → String → Option Cro)
    (laws : ApiLaws api view) where
  -- The custom resource of an object that carries no version.
  abbrev pub cro_of : R → Cro
  cro_of r = record {
    name = cls.id r;
    labels = cls.get_labels r;
    annotations = ("json", cls.to_jsons r) ∷ [];
    resource_version = none;
  }

  -- An object saved without a version is there afterwards, whether it was there before or not, under
  -- a version that the save returns, and every other object is as it was.
  pub set_saves :
      (r : R) (w : W)
      → (v : String) × (u : W) × (set api cls (r, none) false w ≡ (ok (r, some v), u))
        × ((n : String)
            → view u n ≡ (if cls.id r == n then some (stamped v (cro_of r)) else view w n))
  unfolding set
  set_saves r w =
      let (v, u, done, shown) = apply_saves api view laws (cro_of r) w refl in
      (v, u, bind-ok (apply api (cls.id r) (cro_of r) false) _ done, shown)

  -- Over an API that obeys its laws, a save by an object that was read as another version is refused with a conflict, and the cluster
  -- keeps what is there.
  pub set_stale :
      (r : R) (v : String) (d : Cro) (w : W)
      → view w (cls.id r) ≡ some d
      → d.resource_version ≢ some v
      → set api cls (r, some v) false w ≡ (err (api_error 409), w)
  unfolding set apply apply_known
  set_stale r v d w there stale =
      let refused =
        laws.replace_stale w (cls.id r) v (record (cro_of r) { resource_version = some v }) d there
          refl stale in
      ground arith

  -- Deleting by name leaves no object of the name, whether there was one or not, and every other one
  -- as it was.
  pub delete_removes :
      (n : String) (w : W)
      → (u : W) × (delete api n w ≡ (ok tt, u))
        × ((m : String) → view u m ≡ (if n == m then none else view w m))
  unfolding delete
  delete_removes n w = at_once (view w n) refl
    where
      at_once :
          (found : Option Cro)
          → view w n ≡ found
          → (u : W) × (delete api n w ≡ (ok tt, u))
            × ((m : String) → view u m ≡ (if n == m then none else view w m))
      at_once none absent =
          let gone = laws.delete_absent w n absent in
          (w, ground arith, λ m. ground (arith, eq_iff n m))
      at_once (some d) there =
          let (u, gone, shown) = laws.delete_there w n d there in (u, ground arith, shown)

  -- What a lookup by id finds in an object that is there.
  pub get_by_id :
      (kwargs : Dict (Option String)) (id : String) (c : Cro) (b : Bool) (r : R × Option String)
      (w : W)
      → Dict.lookup (cls.singular <> "_id") (selector_of kwargs) ≡ some id
      → view w id ≡ some c
      → labels_fit api cls c.labels (selector_of kwargs) ≡ ok b
      → load_object api cls c ≡ ok r
      → get api cls kwargs w ≡ (ok (if b then r ∷ [] else []), w)
  unfolding get select_objects load_all
  get_by_id kwargs id c true r w selected there fits loads =
      rw (selected, laws.get_there w id c there, found_object, fits, load_all, loads) refl
  get_by_id kwargs id c false r w selected there fits loads =
      rw (selected, laws.get_there w id c there, found_object, fits) refl
