-- ===== src/Controller/Wait/Ends.antt =====
-- How the polling loop of `_wait` of ember_csi/base.py ends.
use ember_csi.Base.{ℕ, zero, suc, ◌≡◌, ◌⊎◌, String, has_infix, elem, Bool, true, false, List, arith}
use ember_csi.Rpc.{Outcome, ok, err, missing_resource, Exec, ◌>>◌}
use ember_csi.Cinder.{Volume, Cinder}
use ember_csi.Controller.Wait.{after_refresh, poll, wait, refresh_time}

-- A volume that failed, or that is gone.
abbrev pub IsSettled : Volume → Type 0
IsSettled v = (has_infix v.status "error" ≡ true) ⊎ (v.status ≡ "deleted")

-- An action that returns only `false`, with a volume that is settled.
abbrev EndsSettled : {W : Type 0} → Exec W (Bool × Volume) → Type 0
EndsSettled {W} m =
    (w : W) (b : Bool) (v : Volume) (w' : W) → m w ≡ (ok (b, v), w') → (b ≡ false) × IsSettled v

module _ {W : Type 0} (cl : Cinder W) (delete_on_error : Bool) where
  after_refresh_ends :
      (v : Volume) (r : Outcome Volume) (again : Volume → Exec W (Bool × Volume))
      → ((u : Volume) → EndsSettled (again u))
      → EndsSettled (after_refresh cl delete_on_error v r again)
  unfolding after_refresh
  after_refresh_ends v (ok u) again ih w b v' w' h = ih u w b v' w' h
  after_refresh_ends v (err missing_resource) again ih w b v' w' h = ground arith
  after_refresh_ends v (err e) again ih w b v' w' h = ground arith

  poll_ends : (fuel : ℕ) (v : Volume) → EndsSettled (poll cl delete_on_error fuel v)
  unfolding poll
  poll_ends zero v w b v' w' h = ground arith
  poll_ends (suc fuel) v w b v' w' h =
      let (r, u) = (cl.sleep refresh_time >> cl.refresh v) w in
      ground (
        arith,
        after_refresh_ends v r (λ x. poll cl delete_on_error fuel x) (poll_ends fuel) u b v' w',
      )

  -- A volume that is outside the awaited states when the wait starts never gets there: if the wait
  -- returns at all, its result is `False`, and the volume is in an error state or deleted.
  pub wait_ends :
      (fuel : ℕ) (v : Volume) (states : List String) (w : W) (b : Bool) (v' : Volume) (w' : W)
      → elem v.status states ≡ false
      → wait cl delete_on_error fuel v states w ≡ (ok (b, v'), w')
      → (b ≡ false) × IsSettled v'
  unfolding wait
  wait_ends fuel v states w b v' w' out h = ground (arith, poll_ends fuel v w b v' w')
