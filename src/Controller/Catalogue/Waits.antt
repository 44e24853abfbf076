-- ===== src/Controller/Catalogue/Waits.antt =====
-- `_wait` of ember_csi/base.py on the kept volumes, as `CreateVolume` and `DeleteVolume` call it.
use ember_csi.Base.{
  ℕ, zero, suc, ◌≡◌, refl, sym, subst, ◌∙◌, ap, String, ◌==◌, eq_iff, has_infix, elem, Bool, true,
  false, none, List, [], ◌∷◌, arith, if◌then◌else◌,
}
use ember_csi.Rpc.{missing_resource, Outcome, ok, err, Exec, pure, continue, ◌>>◌, ◌>>=◌}
use ember_csi.Cinder.{Volume, Cinder}
use ember_csi.Cinder.Laws.{Catalogue, CinderLaws, Refreshed, Knows}
use ember_csi.Csi.{Servicer}
use ember_csi.Identity.Lookup.Live.{IsLive}
use ember_csi.Controller.Wait.{
  catch_missing, poll, wait, after_refresh, delete_failed, refresh_time,
}
use ember_csi.Controller.Create.{wait_created}
use ember_csi.Controller.Delete.{wait_deleted}

-- The volume that is left is of the same id and name, and is marked as deleted only if it is gone.
abbrev pub Left : Catalogue → Volume → Volume → Type 0
Left f v x = (x.id ≡ v.id) × (x.name ≡ v.name) × (x.status ≡ "deleted" → f v.id ≡ none)

abbrev pub Waited : Catalogue → Volume → Outcome (Bool × Volume) → Type 0
Waited f v (ok (b, x)) = Left f v x
Waited f v (err e) = Unit

-- What a wait leaves: the volumes as they are, and such a volume where it returns.
abbrev pub Keeps :
    {W : Type 0} → (W → Catalogue) → Catalogue → Volume → Outcome (Bool × Volume) × W → Type 0
Keeps view f v (r, u) = (view u ≡ f) × Waited f v r

abbrev pub Awaited :
    {W : Type 0} → (W → Catalogue) → Catalogue → Volume → Outcome Volume × W → Type 0
Awaited view f v (ok x, u) = (view u ≡ f) × Left f v x
Awaited view f v (err e, u) = view u ≡ f

Left-trans :
    (f g : Catalogue) (v x y : Volume)
    → f ≡ g
    → x.id ≡ v.id
    → x.name ≡ v.name
    → Left f x y
    → Left g v y
Left-trans f g v x y same ids names (a, b, c) =
    (a ∙ ids, b ∙ names, λ gone. ap (λ h. h v.id) (sym same) ∙ (ap f (sym ids) ∙ c gone))

-- The object stays known while it only changes its status.
Knows-trans :
    (f g : Catalogue) (v x : Volume) → g ≡ f → x.id ≡ v.id → x.name ≡ v.name → Knows f v → Knows g x
Knows-trans f g v x same ids names known y at =
    known y (ap f (sym ids) ∙ (ap (λ h. h x.id) (sym same) ∙ at)) ∙ sym names

Keeps-trans :
    {W : Type 0} (view : W → Catalogue) (f g : Catalogue) (v x : Volume)
    (p : Outcome (Bool × Volume) × W)
    → f ≡ g
    → x.id ≡ v.id
    → x.name ≡ v.name
    → Keeps view f x p
    → Keeps view g v p
Keeps-trans view f g v x (ok (b, y), u) same ids names (e, left) =
    (e ∙ same, Left-trans f g v x y same ids names left)
Keeps-trans view f g v x (err e, u) same ids names (d, left) = (d ∙ same, tt)

module _ {W : Type 0} (cl : Cinder W) (s : Servicer) (view : W → Catalogue)
    (laws : CinderLaws cl s.backend view) where
  after_refresh-Keeps :
      (f : Catalogue) (v : Volume) (r : Outcome Volume) (again : Volume → Exec W (Bool × Volume))
      (u : W)
      → view u ≡ f
      → Refreshed f v r
      → ((x : Volume) → x.id ≡ v.id → x.name ≡ v.name → Keeps view (view u) x (again x u))
      → Keeps view f v (after_refresh cl false v r again u)
  unfolding after_refresh
  after_refresh-Keeps f v (ok x) again u same (ids, names) ih =
      Keeps-trans view (view u) f v x (again x u) same ids names (ih x ids names)
  after_refresh-Keeps f v (err missing_resource) again u same gone ih =
      (same, (refl, refl, λ e. gone))
  after_refresh-Keeps f v (err e) again u same gone ih = (same, tt)

  failed_keeps : (v : Volume) (f : Catalogue) → has_infix v.status "error" ≡ true → Left f v v
  failed_keeps v f failed = (
    refl,
    refl,
    λ gone. let h : has_infix "deleted" "error" ≡ true = (rw gone at failed) in ground arith,
  )

  refresh-Keeps :
      (v : Volume) (again : Volume → Exec W (Bool × Volume)) (w : W)
      → Knows (view w) v
      → ((x : Volume) (u : W) → Knows (view u) x → Keeps view (view u) x (again x u))
      → Keeps view (view w) v (
          let (r, u) = (cl.sleep refresh_time >> cl.refresh v) w in
          after_refresh cl false v r again u)
  refresh-Keeps v again w known ih =
      slept (cl.sleep refresh_time w) (laws.sleep_quiet refresh_time w) (laws.sleeps refresh_time w)
    where
      slept :
          (p : Outcome (Unit {0}) × W)
          → view p.1 ≡ view w
          → p.0 ≡ ok tt
          → Keeps view (view w) v (
              let (r, u) = continue p.0 (λ t. cl.refresh v) p.1 in
              after_refresh cl false v r again u)
      slept (ok t, x) same returned =
          after_refresh-Keeps (view w) v (cl.refresh v x).0 again (cl.refresh v x).1
            (laws.refresh_quiet v x ∙ same)
            (subst (λ f. Refreshed f v (cl.refresh v x).0) same
              (laws.refreshed v x (rw same known)))
            (λ y ids names. ih y _ (
              Knows-trans (view w) (view (cl.refresh v x).1) v y (laws.refresh_quiet v x ∙ same) ids
                names known))
      slept (err e, x) same returned = ground arith

  poll-Keeps :
      (fuel : ℕ) (v : Volume) (w : W)
      → Knows (view w) v
      → Keeps view (view w) v (poll cl false fuel v w)
  unfolding poll delete_failed
  poll-Keeps zero v w known = (refl, tt)
  poll-Keeps (suc fuel) v w known =
      step (has_infix v.status "error") refl
        (refresh-Keeps v (λ x. poll cl false fuel x) w known (λ x u. poll-Keeps fuel x u))
    where
      step :
          (b : Bool)
          → has_infix v.status "error" ≡ b
          → Keeps view (view w) v (
              let (r, u) = (cl.sleep refresh_time >> cl.refresh v) w in
              after_refresh cl false v r (λ x. poll cl false fuel x) u)
          → Keeps view (view w) v (elim b [
            | true ↦
                let (r, w') = (delete_failed cl false v >> pure (false, v)) w in
                catch_missing v r w'
            | false ↦
                let (r, w') = (cl.sleep refresh_time >> cl.refresh v) w in
                after_refresh cl false v r (λ v'. poll cl false fuel v') w'
          ])
      step true failed again = (refl, failed_keeps v (view w) failed)
      step false fine again = again

  same_Left : (v : Volume) (f : Catalogue) → IsLive v → Left f v v
  same_Left v f live_v = (refl, refl, λ gone. ground (arith, eq_iff v.status "deleted"))

  wait-Keeps :
      (v : Volume) (states : List String) (w : W)
      → Knows (view w) v
      → IsLive v
      → Keeps view (view w) v (wait cl false s.fuel v states w)
  unfolding wait
  wait-Keeps v states w known live_v = go (elem v.status states)
    where
      go :
          (b : Bool)
          → Keeps view
              (view w)
              v
              (elim b [ true ↦ (ok (true, v), w) | false ↦ poll cl false s.fuel v w ])
      go true = (refl, same_Left v (view w) live_v)
      go false = poll-Keeps s.fuel v w known

  -- A live volume is awaited, if there is a reason to.
  wait_if_keeps :
      (b : Bool) (states : List String) (v : Volume) (w : W)
      → Knows (view w) v
      → IsLive v
      → Awaited view
          (view w)
          v
          ((if b then (wait cl false s.fuel v states >>= λ (_, x). pure x) else pure v) w)
  wait_if_keeps false states v w known live_v = (refl, same_Left v (view w) live_v)
  wait_if_keeps true states v w known live_v =
      drop_result (wait cl false s.fuel v states w) (wait-Keeps v states w known live_v)
    where
      drop_result :
          (p : Outcome (Bool × Volume) × W)
          → Keeps view (view w) v p
          → Awaited view (view w) v (continue p.0 (λ (_, x). pure x) p.1)
      drop_result (ok (b, x), u) h = h
      drop_result (err e, u) h = h.0

  pub wait_created_keeps :
      (source_vol_id : Volume → Exec W String) (v : Volume) (w : W)
      → Knows (view w) v
      → IsLive v
      → Awaited view (view w) v (wait_created cl source_vol_id s v w)
  unfolding wait_created
  wait_created_keeps f v w known live_v =
      wait_if_keeps (v.status == "creating") ("available" ∷ []) v w known live_v

  pub wait_deleted_keeps :
      (v : Volume) (w : W)
      → Knows (view w) v
      → IsLive v
      → Awaited view (view w) v (wait_deleted cl s v w)
  unfolding wait_deleted
  wait_deleted_keeps v w known live_v =
      wait_if_keeps (v.status == "deleting") ("deleted" ∷ []) v w known live_v
