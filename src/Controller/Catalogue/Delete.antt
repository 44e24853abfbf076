-- ===== src/Controller/Catalogue/Delete.antt =====
-- `DeleteVolume` of ember_csi/base.py on the kept volumes.
use ember_csi.Base.{
  ◌≡◌, ◌≢◌, refl, sym, subst, ◌∙◌, ap, String, ◌==◌, eq_iff, truthy, has_infix, elem, Bool, true,
  false, not, ◌&&◌, ◌<>◌, Option, none, some, List, [], ◌∷◌, arith, if◌then◌else◌,
}
use ember_csi.Rpc.{
  Outcome, ok, err, unknown, failed_precondition, aborted, Exec, continue, abort_with, abort_if,
  handle_fault, exited, diverged, pure, ◌>>=◌,
}
use ember_csi.Cinder.{Volume, Snapshot, Cinder}
use ember_csi.Rpc.Effects.{abort_if-IsQuiet}
use ember_csi.Cinder.Laws.{Catalogue, CinderLaws, Replaces, Changed}
use ember_csi.Csi.{DeleteVolumeRequest, Servicer}
use ember_csi.Identity.Lookup.{Found, one, many, get_vol}
use ember_csi.Identity.Lookup.Live.{IsLive}
use ember_csi.Controller.Delete.{
  wait_deleted, delete_or_mark, remove_volume, delete_found, delete_any, delete_body,
}
use ember_csi.Controller.Catalogue.{IsUnique, known_at, replace-IsUnique}
use ember_csi.Controller.Catalogue.Waits.{Awaited, wait_deleted_keeps}
use ember_csi.Controller.Catalogue.Lookups.{FindsIn, get_vol_by_id}

-- The volumes of all other ids are as they were.
abbrev pub Apart : Catalogue → String → Catalogue → Type 0
Apart f id g = (n : String) → n ≢ id → g n ≡ f n

-- What the handler leaves, and that the volume is not there where it answers.
abbrev pub Removed :
    {W : Type 0} → (W → Catalogue) → Catalogue → String → Outcome (Unit {0}) × W → Type 0
Removed view f id (ok t, u) =
    IsUnique (view u) × Apart f id (view u) × ((x : Volume) → view u id ≡ some x → ¬ IsLive x)
Removed view f id (err e, u) = IsUnique (view u) × Apart f id (view u)

module _ {W : Type 0} (view : W → Catalogue) (f : Catalogue) (unique : IsUnique f)
    (id : String) where
  quiet-Removed :
      {A : Type 0} (p : Outcome A × W) (k : A → Exec W (Unit {0}))
      → view p.1 ≡ f
      → ((a : A) (u : W) → view u ≡ f → Removed view f id (k a u))
      → Removed view f id (continue p.0 k p.1)
  quiet-Removed (ok a, u) k same rest = rest a u same
  quiet-Removed (err e, u) k same rest = rw same (unique, λ n h. refl)

  -- The place of the stored volume is changed, to nothing or to a volume that is not live.
  Changed-Removed :
      (y stored : Volume) (o target : Option Volume) (r : Outcome (Unit {0})) (u : W)
      → f y.id ≡ some stored
      → IsLive stored
      → stored.name ≡ y.name
      → y.id ≡ id
      → ((x : Volume) → target ≡ some x → ¬ IsLive x)
      → Replaces y o
      → view u ≡ (λ n. if y.id == n then o else f n)
      → Changed r target o
      → Removed view f id (r, u)
  Changed-Removed y stored o target (ok t) u at live_y named ids dead replaces same changed =
      rw same (
        replace-IsUnique f unique y stored o at live_y named replaces,
        (λ n other. ground (arith, eq_iff y.id n)),
        (λ x here. dead x (ground (arith, eq_iff y.id id))),
      )
  Changed-Removed y stored o target (err e) u at live_y named ids dead replaces same changed =
      rw same (
        replace-IsUnique f unique y stored o at live_y named replaces,
        (λ n other. ground (arith, eq_iff y.id n)),
      )

  handled-Removed :
      (p : Outcome (Unit {0}) × W)
      → Removed view f id p
      → Removed view f id (handle_fault p.0 (abort_with unknown "Error") p.1)
  handled-Removed (ok t, u) h = h
  handled-Removed (err (exited n), u) h = h
  handled-Removed (err diverged, u) h = h
  handled-Removed (err e, u) h = h

module _ {W : Type 0} (cl : Cinder W) (s : Servicer) (view : W → Catalogue)
    (laws : CinderLaws cl s.backend view) where
  -- `y` is the live volume that is stored under the id, as the handler knows it.
  module _ (f : Catalogue) (unique : IsUnique f) (y stored : Volume) (at : f y.id ≡ some stored)
      (live_y : IsLive stored) (named : stored.name ≡ y.name) where
    delete_or_mark-Removed :
        (snaps : List Snapshot) (w : W)
        → view w ≡ f
        → Removed view f y.id (delete_or_mark cl s y snaps w)
    unfolding delete_or_mark
    delete_or_mark-Removed [] w same =
        let (o, replaces, changed, target) =
          laws.deletes y w (rw same (known_at f y stored at named)) in
        handled-Removed view f unique y.id (cl.delete y w) (
          Changed-Removed view f unique y.id y stored o none (cl.delete y w).0 (cl.delete y w).1 at
            live_y named refl (λ x e. ground arith) replaces
            (changed ∙ ap (λ g n. if y.id == n then o else g n) same) target)
    delete_or_mark-Removed (x ∷ xs) w same =
        let marked : Volume = record y { status = "deleted" } in
        let (o, replaces, changed, target) =
          laws.saves marked w (rw same (known_at f marked stored at named)) in
        Changed-Removed view f unique y.id marked stored o (some marked) (cl.save marked w).0
          (cl.save marked w).1 at live_y named refl
          (λ z e. ground (arith, e, eq_iff z.status "deleted")) replaces
          (changed ∙ ap (λ g n. if y.id == n then o else g n) same) target

    remove_volume-Removed :
        (w : W)
        → view w ≡ f
        → (y.status ≡ "deleted" → f y.id ≡ none)
        → Removed view f y.id (remove_volume cl s y w)
    unfolding remove_volume
    remove_volume-Removed w same gone =
        by_status (y.status == "deleted") (eq_iff y.status "deleted").0 (delete_or_mark-Removed)
      where
        by_status :
            (b : Bool)
            → (b ≡ true → y.status ≡ "deleted")
            → ((snaps : List Snapshot) (u : W)
                → view u ≡ f
                → Removed view f y.id (delete_or_mark cl s y snaps u))
            → Removed view f y.id (
                (if b then pure tt else (cl.snapshots y >>= λ snaps. delete_or_mark cl s y snaps))
                  w)
        by_status true dead marked =
            rw same (unique, (λ n h. refl), λ x here. ground (arith, gone (dead refl)))
        by_status false dead marked =
            quiet-Removed view f unique y.id (cl.snapshots y w) _ (laws.snapshots_quiet y w ∙ same)
              marked

  module _ (f : Catalogue) (unique : IsUnique f) where
    Awaited-Removed :
        (v : Volume) (p : Outcome Volume × W)
        → f v.id ≡ some v
        → IsLive v
        → Awaited view f v p
        → Removed view f v.id (continue p.0 (λ x. remove_volume cl s x) p.1)
    Awaited-Removed v (ok x, u) at live_v (same, (ids, names, gone)) =
        subst (λ n. Removed view f n (remove_volume cl s x u)) ids
          (remove_volume-Removed f unique x v (ap f ids ∙ at) live_v (sym names) u same
            (λ dead. ap f ids ∙ gone dead))
    Awaited-Removed v (err e, u) at live_v same = rw same (unique, λ n h. refl)

    delete_found-Removed :
        (v : Volume) (w : W)
        → view w ≡ f
        → f v.id ≡ some v
        → IsLive v
        → Removed view f v.id (delete_found cl s v w)
    unfolding delete_found
    delete_found-Removed v w same at live_v =
        quiet-Removed view f unique v.id
          (abort_if (v.status == "in-use") failed_precondition "Volume in use" w) _
          (abort_if-IsQuiet view _ _ _ w ∙ same)
          (λ t u still.
            quiet-Removed view f unique v.id
              (abort_if
                (not (elem v.status ("available" ∷ "deleting" ∷ []))
                  && not (has_infix v.status "error"))
                aborted ("Operation pending for volume (" <> (v.status <> ")")) u)
              _ (abort_if-IsQuiet view _ _ _ u ∙ still)
              (λ t' x yet. Awaited-Removed v (wait_deleted cl s v x) at live_v (
                subst (λ g. Awaited view g v (wait_deleted cl s v x)) yet
                  (wait_deleted_keeps cl s view laws v x (rw yet (known_at f v v at refl))
                    live_v))))

    delete_any-Removed :
        (id : String) (p : Outcome Found × W)
        → FindsIn view f (λ v. v.id ≡ id) true p
        → Removed view f id (continue p.0 (λ found. delete_any cl s found) p.1)
    unfolding delete_any
    delete_any-Removed id (ok (one v), u) (same, (at, ids, live_v)) =
        subst (λ n. Removed view f n (delete_found cl s v u)) ids
          (delete_found-Removed v u same at live_v)
    delete_any-Removed id (ok (many []), u) (same, absent) = (
      rw same unique,
      (λ n h. ap (λ g. g n) same),
      λ x here live_x.
          absent id x (ap (λ g. g id) (sym same) ∙ here) (laws.keyed u id x here) live_x,
    )
    delete_any-Removed id (ok (many (x ∷ xs)), u) (same, found) = ground (arith, found)
    delete_any-Removed id (err e, u) same = rw same (unique, λ n h. refl)

  pub delete_body-Removed :
      (r : DeleteVolumeRequest) (w : W)
      → truthy r.volume_id ≡ true
      → IsUnique (view w)
      → Removed view (view w) r.volume_id (delete_body cl s r w)
  unfolding delete_body
  delete_body-Removed r w given unique =
      delete_any-Removed (view w) unique r.volume_id (get_vol cl s (some r.volume_id) none w)
        (get_vol_by_id cl s view laws w r.volume_id given)
