-- ===== src/Identity/Probe.antt =====
-- `Probe` of ember_csi/base.py: a value is written to the metadata persistence and read back, then
-- the driver is asked for its health and its stats.
pub mod Answers
use ember_csi.Base.{
  ℕ, ◌+◌, ◌%◌, String, ◌==◌, Bool, true, false, Option, none, some, List, [], ◌∷◌, if◌then◌else◌,
}
use ember_csi.Rpc.{
  failed_precondition, value_error, Exec, ok, on_fst, pure, raise, abort_with, try_except, ◌>>=◌,
  ◌>>◌,
}
use ember_csi.Cinder.{KeyValue, Cinder}

-- `int(text)` and `str(number)` of Python.
pub record Decimal : Type 0 where
  pub int : String → Option ℕ
  pub str : ℕ → String

unfoldable pub or_value_error : {W : Type 0} → Option ℕ → Exec W ℕ
or_value_error none = raise value_error
or_value_error (some n) = pure n

-- `if not res or res[0].value != value: context.abort(...)`
unfoldable pub check_stored : {W : Type 0} → String → List KeyValue → Exec W (Unit {0})
check_stored value [] = abort_with failed_precondition "Storing metadata persistence value failed"
check_stored value (kv ∷ _) =
    if kv.value == value
    then pure tt
    else abort_with failed_precondition "Storing metadata persistence value failed"

-- `PROBE_KV` is part of the servicer's state: its value changes before it is stored.
abbrev set_probe : {W : Type 0} → KeyValue → Exec (W × KeyValue) (Unit {0})
set_probe kv (w, _) = (ok tt, (w, kv))

abbrev get_probe : {W : Type 0} → Exec (W × KeyValue) KeyValue
get_probe (w, kv) = (ok kv, (w, kv))

module _ {W : Type 0} (cl : Cinder W) (dec : Decimal) where
  -- The body of the first `try`.
  unfoldable pub store_probe : Exec (W × KeyValue) (Unit {0})
  store_probe = do
    kv ← get_probe
    n ← or_value_error (dec.int kv.value)
    let next : KeyValue = record { key = kv.key; value = dec.str ((n + 1) % 1000) }
    set_probe next
    on_fst (cl.set_key_value next)
    res ← on_fst (cl.get_key_values next.key)
    check_stored next.value res

  -- The flag says whether `self.backend` is set.
  unfoldable pub check_driver : Bool → Exec W (Unit {0})
  check_driver false = pure tt
  check_driver true = do
    try_except cl.check_for_setup_error
        (abort_with failed_precondition "Driver check setup error failed")
    try_except cl.stats (abort_with failed_precondition "Driver failed to return the stats")

  -- `enable` is `CONF.ENABLE_PROBE`. An abort in the first `try` is an exception too, and is caught
  -- like any other.
  unfoldable pub probe : Bool → Bool → Exec (W × KeyValue) (Unit {0})
  probe false has_backend = pure tt
  probe true has_backend = do
    try_except store_probe (abort_with failed_precondition "Error accessing metadata persistence")
    on_fst (check_driver has_backend)
