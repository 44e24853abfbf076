-- ===== src/Examples/Identity.antt =====
-- The identity service, the retries of commands and the required fields at concrete inputs.
use ember_csi.Base.{
  ℕ, suc, ◌≡◌, ◌≢◌, ◌↔◌, refl, String, true, some, none, List, [], ◌∷◌, All, arith,
}
use ember_csi.Rpc.{ok, err, process_error, pure, Exec, require, invalid_argument, Fault, IsAbort}
use ember_csi.Rpc.Required.{require-missing, require-present}
use ember_csi.Csi.{DeleteVolumeRequest, v1_0_0}
use ember_csi.Identity.Capabilities.{validate_capabilities}
use ember_csi.Identity.Capabilities.Supported.{IsSupported, validate_capabilities-ok}
use ember_csi.Identity.Probe.{Decimal, probe}
use ember_csi.Identity.Probe.Answers.{IsAnswer, probe-IsAnswer}
use ember_csi.Identity.Sudo.{Retry, default_retry, sudo}
use ember_csi.Identity.Sudo.Attempts.{sudo-some}
use ember_csi.Samples.{Store, store, fake, servicer, ext4}

abbrev empty : Store
empty = store [] [] [] []

validate_capabilities-ok_example :
    (validate_capabilities (servicer v1_0_0) (ext4 ∷ []) empty ≡ (ok tt, empty))
    ↔ All (IsSupported (servicer v1_0_0)) (ext4 ∷ [])
validate_capabilities-ok_example = validate_capabilities-ok (servicer v1_0_0) (ext4 ∷ []) empty

abbrev decimal : Decimal
decimal = record { int = λ t. some 0; str = λ n. "1" }

probe-IsAnswer_example :
    IsAnswer (probe fake decimal true true (empty, record { key = "p"; value = "0" })).0
probe-IsAnswer_example =
    probe-IsAnswer fake decimal true true (empty, record { key = "p"; value = "0" })

-- A command that fails every time with the exit code of a failed mount.
abbrev fails : List String → Exec Store String
fails cmd w = (err (process_error 32), record w { runs = suc w.runs })

abbrev nap : ℕ → Exec Store (Unit {0})
nap d w = (ok tt, w)

abbrev four_tries : Retry
four_tries = record default_retry { retries = 4 }

sudo-some_example : (sudo fails nap four_tries ("umount" ∷ []) empty).0 ≢ ok none
sudo-some_example = sudo-some fails nap four_tries ("umount" ∷ []) empty (omega arith)

abbrev named : DeleteVolumeRequest → List String
named r = "volume_id" ∷ []

require-missing_example :
    (e : Fault) × IsAbort invalid_argument e
    × (require
          ("volume_id" ∷ "node_id" ∷ [])
          named
          (λ r. pure tt)
          (record { volume_id = "v1" })
          empty
        ≡ (err e, empty))
require-missing_example =
    require-missing ("volume_id" ∷ "node_id" ∷ []) named (λ r. pure tt)
      (record { volume_id = "v1" }) "node_id" empty refl refl

require-present_example :
    require ("volume_id" ∷ []) named (λ r. pure tt) (record { volume_id = "v1" }) empty
    ≡ (ok tt, empty)
require-present_example =
    require-present ("volume_id" ∷ []) named (λ r. pure tt) (record { volume_id = "v1" }) empty
      (refl, tt)
