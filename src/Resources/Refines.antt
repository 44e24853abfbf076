-- ===== src/Resources/Refines.antt =====
-- The cluster as a map from names to objects: what `CRD.get` of ember_csi/cl_crd.py reads, and what a
-- sequence of saves and deletions leaves.
use ember_csi.Base.{
  ◌≡◌, refl, ◌∙◌, fun_ext, eq_refl, String, ◌==◌, ◌<>◌, Bool-cases, inl, inr, true, false, Option,
  none, some, List, [], ◌∷◌, arith, if◌then◌else◌,
}
use ember_csi.Base.Dict
use ember_csi.Base.Dict.{Dict}
use ember_csi.Rpc.{ok, err, Exec, pure, ◌>>◌}
use ember_csi.Rpc.Inversion.{bind-ok}
use ember_csi.Resources.{Cro, CrdApi, Kind, set, delete, get, selector_of, labels_fit, load_object}
use ember_csi.Resources.Laws.{stamped, ApiLaws, IsKind}
use ember_csi.Resources.Saves.{cro_of, get_by_id, set_saves, delete_removes}

pub data Op (R : Type 0) : Type 0 where
  save : R → Op R
  remove : String → Op R

module _ {W R : Type 0} (api : CrdApi W) (cls : Kind R) (view : W → String → Option Cro)
    (laws : ApiLaws api view) (kind : IsKind cls) where
  load_saved :
      (r : R) (v : String)
      → load_object api cls (stamped v (cro_of api cls view laws r)) ≡ ok (r, some v)
  unfolding load_object Dict.lookup
  load_saved r v = rw kind.load-to_jsons refl

  abbrev by_id : String → Dict (Option String)
  by_id id = (cls.singular <> "_id", some id) ∷ []

  selected :
      (r : R)
      → Dict.lookup (cls.singular <> "_id") (selector_of (by_id (cls.id r))) ≡ some (cls.id r)
  unfolding Dict.lookup selector_of
  selected r = ground (arith, eq_refl (cls.singular <> "_id"))

  labelled :
      (r : R) → labels_fit api cls (cls.get_labels r) (selector_of (by_id (cls.id r))) ≡ ok true
  unfolding labels_fit selector_of
  labelled r = ground (arith, kind.labels_id r, eq_refl (cls.id r))

  -- Over an API that obeys its laws, what has been saved without a version is read back by its id, as it was and with the version of the save.
  pub get-set :
      (r : R) (w : W)
      → (v : String) × (u : W) × (set api cls (r, none) false w ≡ (ok (r, some v), u))
        × (get api cls (by_id (cls.id r)) u ≡ (ok ((r, some v) ∷ []), u))
  get-set r w =
      let (v, u, saved, shown) = set_saves api cls view laws r w in
      let here : view u (cls.id r) ≡ some (stamped v (cro_of api cls view laws r)) =
        ground (arith, shown (cls.id r), eq_refl (cls.id r)) in
      (
        v,
        u,
        saved,
        get_by_id api cls view laws (by_id (cls.id r)) (cls.id r)
            (stamped v (cro_of api cls view laws r)) true (r, some v) u (selected r) here
            (labelled r) (load_saved r v),
      )

  abbrev object_of : Option Cro → Option R
  object_of none = none
  object_of (some c) = elim (load_object api cls c) [ err e ↦ none | ok (r, v) ↦ some r ]

  -- The object that the cluster has by a name.
  abbrev pub object_at : W → String → Option R
  object_at w n = object_of (view w n)

  unfoldable pub run : List (Op R) → Exec W (Unit {0})
  run [] = pure tt
  run (save r ∷ ops) = set api cls (r, none) false >> run ops
  run (remove n ∷ ops) = delete api n >> run ops

  -- The same operations on a map.
  pub replay : List (Op R) → (String → Option R) → String → Option R
  replay [] f = f
  replay (save r ∷ ops) f = replay ops λ n. if cls.id r == n then some r else f n
  replay (remove m ∷ ops) f = replay ops λ n. if m == n then none else f n

  saved_object :
      (r : R) (v : String) (u w : W)
      → ((n : String)
          → view u n
            ≡ (if cls.id r == n then some (stamped v (cro_of api cls view laws r)) else view w n))
      → object_at u ≡ (λ n. if cls.id r == n then some r else object_at w n)
  unfolding load_object
  saved_object r v u w shown = fun_ext λ n. elim (Bool-cases (cls.id r == n)) [
    | inl same ↦ rw (shown n, same, load_saved r v) refl
    | inr other ↦ rw (shown n, other) refl
  ]

  removed_object :
      (m : String) (u w : W)
      → ((n : String) → view u n ≡ (if m == n then none else view w n))
      → object_at u ≡ (λ n. if m == n then none else object_at w n)
  removed_object m u w shown = fun_ext λ n. elim (Bool-cases (m == n)) [
    | inl same ↦ rw (shown n, same) refl
    | inr other ↦ rw (shown n, other) refl
  ]

  -- Over an API that obeys its laws any sequence of saves without a version and of deletions succeeds, and leaves the objects that the same operations
  -- leave in a map from names to objects.
  pub run_refines :
      (ops : List (Op R)) (w : W)
      → (u : W) × (run ops w ≡ (ok tt, u)) × (object_at u ≡ replay ops (object_at w))
  unfolding run replay
  run_refines [] w = (w, refl, refl)
  run_refines (save r ∷ ops) w =
      let (v, x, saved, shown) = set_saves api cls view laws r w in
      let (u, ran, left) = run_refines ops x in
      (
        u,
        bind-ok (set api cls (r, none) false) _ saved ∙ ran,
        rw (← saved_object r v x w shown) left,
      )
  run_refines (remove m ∷ ops) w =
      let (x, gone, shown) = delete_removes api cls view laws m w in
      let (u, ran, left) = run_refines ops x in
      (u, bind-ok (delete api m) _ gone ∙ ran, rw (← removed_object m x w shown) left)
