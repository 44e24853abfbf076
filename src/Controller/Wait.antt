-- ===== src/Controller/Wait.antt =====
-- `_wait` of ember_csi/base.py: a volume is polled until it reaches one of the given states.
pub mod Ends
use ember_csi.Base.{ℕ, zero, suc, String, has_infix, elem, Bool, true, false, List}
use ember_csi.Rpc.{missing_resource, diverged, Outcome, ok, err, Exec, pure, ◌>>◌}
use ember_csi.Cinder.{Volume, Cinder}

-- `constants.REFRESH_TIME`
abbrev pub refresh_time : ℕ
refresh_time = 1

-- `except exception.NotFound`, with the changes to the resource that the handler makes; `resource`
-- is the resource as it was when the exception was raised.
abbrev pub catch_missing : {W : Type 0} → Volume → Outcome (Bool × Volume) → Exec W (Bool × Volume)
catch_missing resource (err missing_resource) w =
    (ok (false, record resource { status = "deleted" }), w)
catch_missing resource r w = (r, w)

module _ {W : Type 0} (cl : Cinder W) (delete_on_error : Bool) where
  -- `if delete_on_error: resource.delete()`
  unfoldable pub delete_failed : Volume → Exec W (Unit {0})
  delete_failed v = elim delete_on_error [ true ↦ cl.delete v | false ↦ pure tt ]

  -- The rest of the loop after a refresh, or the handler where the refresh raises.
  unfoldable pub after_refresh :
      Volume → Outcome Volume → (Volume → Exec W (Bool × Volume)) → Exec W (Bool × Volume)
  after_refresh v (ok v') again w = again v' w
  after_refresh v (err e) again w = catch_missing v (err e) w

  -- The loop, for a status outside `states`. The variable `status` of the source is read once,
  -- before the loop, so the loop's own test never changes: only an error or a missing resource
  -- ends it.
  unfoldable pub poll : ℕ → Volume → Exec W (Bool × Volume)
  poll zero v w = (err diverged, w)
  poll (suc fuel) v w = elim (has_infix v.status "error") [
    | true ↦ let (r, w') = (delete_failed v >> pure (false, v)) w in catch_missing v r w'
    | false ↦
        let (r, w') = (cl.sleep refresh_time >> cl.refresh v) w in
        after_refresh v r (λ v'. poll fuel v') w'
  ]

  -- `_wait(resource, states, delete_on_error)`: its result, and the resource as it leaves it.
  unfoldable pub wait : ℕ → Volume → List String → Exec W (Bool × Volume)
  wait fuel v states w = elim (elem v.status states) [
    | true ↦ (ok (true, v), w)
    | false ↦ poll fuel v w
  ]
