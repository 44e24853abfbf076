-- ===== src/Identity/Sudo.antt =====
-- `sudo` of ember_csi/base.py: a command that is tried again, with growing delays, while it fails
-- with one of the listed exit codes.
pub mod Attempts
pub mod Views
use ember_csi.Base.{
  ℕ, zero, suc, ◌*◌, String, Bool, true, false, not, ◌||◌, Option, none, some, List, [], ◌∷◌, eqb,
}
use ember_csi.Rpc.{process_error, Outcome, ok, err, Exec, pure, ◌>>◌}

-- `code in errors`
unfoldable pub elem_code : ℕ → List ℕ → Bool
elem_code c [] = false
elem_code c (d ∷ ds) = eqb c d || elem_code c ds

-- The keyword arguments.
pub record Retry : Type 0 where
  pub retries : ℕ
  pub delay : ℕ
  pub backoff : ℕ
  pub errors : List ℕ

abbrev pub default_retry : Retry
default_retry = record { retries = 1; delay = 1; backoff = 2; errors = 32 ∷ [] }

-- `execute` is `processutils.execute`, `sleep` is `time.sleep`; the result is the standard output,
-- or `None` where the loop ends with no attempt made.
module _ {W : Type 0} (execute : List String → Exec W String) (sleep : ℕ → Exec W (Unit {0})) where
  -- One round of the loop; `again` is the rounds that are left.
  unfoldable pub after_attempt :
      Outcome String → Bool → List ℕ → Exec W (Option String) → Exec W (Option String)
  after_attempt (ok out) is_last errors again w = pure (some out) w
  after_attempt (err (process_error code)) is_last errors again w =
      elim (not (elem_code code errors) || is_last) [
        | true ↦ (err (process_error code), w)
        | false ↦ again w
      ]
  after_attempt (err e) is_last errors again w = (err e, w)

  -- `retries` counts down to 0, which ends the loop.
  unfoldable pub attempts : ℕ → ℕ → ℕ → List ℕ → List String → Exec W (Option String)
  attempts zero delay backoff errors cmd w = (ok none, w)
  attempts (suc n) delay backoff errors cmd w =
      let (r, w') = execute cmd w in
      after_attempt r (eqb n 0) errors
        (λ u. (sleep delay >> attempts n (delay * backoff) backoff errors cmd) u) w'

  unfoldable pub sudo : Retry → List String → Exec W (Option String)
  sudo k cmd = attempts k.retries k.delay k.backoff k.errors cmd
