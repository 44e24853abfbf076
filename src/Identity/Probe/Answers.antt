-- ===== src/Identity/Probe/Answers.antt =====
-- What `Probe` of ember_csi/base.py answers.
use ember_csi.Base.{refl, String, Bool, true, false}
use ember_csi.Rpc.{
  failed_precondition, Outcome, ok, err, Fault, IsAbort, exited, diverged, Exec, handle_fault,
  continue, try_except, abort_with, ◌>>=◌,
}
use ember_csi.Cinder.{KeyValue, Cinder}
use ember_csi.Identity.Probe.{Decimal, store_probe, check_driver, probe}

-- FAILED_PRECONDITION, or the end of the process, or a call that does not return.
abbrev pub IsExpected : Fault → Type 0
IsExpected (exited _) = Unit
IsExpected diverged = Unit
IsExpected e = IsAbort failed_precondition e

abbrev pub IsAnswer : {A : Type 0} → Outcome A → Type 0
IsAnswer (ok _) = Unit
IsAnswer (err e) = IsExpected e

-- A chain of two answers is an answer.
bind-IsAnswer :
    {W A B : Type 0} (m : Exec W A) (f : A → Exec W B) (w : W)
    → IsAnswer (m w).0
    → ((a : A) (u : W) → IsAnswer (f a u).0)
    → IsAnswer ((m >>= f) w).0
bind-IsAnswer {W} {A} {B} m f w hm hf = go (m w) hm
  where
    go : (p : Outcome A × W) → IsAnswer p.0 → IsAnswer (continue p.0 f p.1).0
    go (ok a, u) h = hf a u
    go (err e, u) h = h

handled :
    {W A : Type 0} (r : Outcome A) (details : String) (w : W)
    → IsAnswer (handle_fault r (abort_with failed_precondition details) w).0
handled (ok a) details w = tt
handled (err (exited n)) details w = tt
handled (err diverged) details w = tt
handled (err e) details w = refl

module _ {W : Type 0} (cl : Cinder W) (dec : Decimal) where
  check_driver-IsAnswer : (b : Bool) (w : W) → IsAnswer (check_driver cl dec b w).0
  unfolding check_driver
  check_driver-IsAnswer false w = tt
  check_driver-IsAnswer true w =
      bind-IsAnswer
        (try_except cl.check_for_setup_error
          (abort_with failed_precondition "Driver check setup error failed"))
        _ w (handled (cl.check_for_setup_error w).0 _ (cl.check_for_setup_error w).1)
        λ _ u. handled (cl.stats u).0 _ (cl.stats u).1

  -- Whatever the persistence and the driver do, a probe that fails is answered with
  -- FAILED_PRECONDITION, unless the process exits or a call does not return.
  pub probe-IsAnswer :
      (enable has_backend : Bool) (w : W × KeyValue)
      → IsAnswer (probe cl dec enable has_backend w).0
  unfolding probe
  probe-IsAnswer false has_backend w = tt
  probe-IsAnswer true has_backend w =
      bind-IsAnswer
        (try_except (store_probe cl dec)
          (abort_with failed_precondition "Error accessing metadata persistence"))
        _ w (handled (store_probe cl dec w).0 _ (store_probe cl dec w).1)
        λ _ u. check_driver-IsAnswer has_backend u.0
