-- ===== src/Identity/Sudo/Attempts.antt =====
-- How often `sudo` of ember_csi/base.py runs its command, and what it returns.
use ember_csi.Base.{
  ℕ, zero, suc, ◌<◌, ◌-◌, ◌+◌, ◌≤◌, ◌≡◌, ◌≢◌, ◌*◌, String, Bool, true, false, Option, none, List,
  eqb, arith, Bool-cases, inl, inr, not, ◌||◌,
}
use ember_csi.Rpc.{process_error, Outcome, ok, err, Exec, ◌>>◌, continue}
use ember_csi.Identity.Sudo.{elem_code, Retry, after_attempt, attempts, sudo}

module _ {W : Type 0} (execute : List String → Exec W String) (sleep : ℕ → Exec W (Unit {0})) where
  -- `again` has returned no `None`, wherever it stands.
  after_attempt-some :
      (r : Outcome String) (is_last : Bool) (errors : List ℕ) (again : Exec W (Option String))
      (w : W)
      → (is_last ≡ false → (again w).0 ≢ ok none)
      → (after_attempt execute sleep r is_last errors again w).0 ≢ ok none
  unfolding after_attempt
  after_attempt-some (ok out) is_last errors again w h e = cc e
  after_attempt-some (err (process_error c)) is_last errors again w h e =
      elim (Bool-cases (not (elem_code c errors) || is_last)) [
        | inl end_here ↦ cc (rw (end_here, after_attempt) at e)
        | inr go_on ↦ h (ground arith) (rw (go_on, after_attempt) at e)
      ]
  after_attempt-some (err f) is_last errors again w h e = cc e

  again-some :
      (p : Outcome (Unit {0}) × W) (again : Exec W (Option String))
      → ((u : W) → (again u).0 ≢ ok none)
      → (continue p.0 (λ _. again) p.1).0 ≢ ok none
  again-some (ok x, u) again h k = h u k
  again-some (err e, u) again h k = cc k

  attempts-some :
      (n delay backoff : ℕ) (errors : List ℕ) (cmd : List String) (w : W)
      → (attempts execute sleep (suc n) delay backoff errors cmd w).0 ≢ ok none
  unfolding attempts
  attempts-some zero delay backoff errors cmd w =
      let (r, u) = execute cmd w in
      after_attempt-some r true errors
        (λ x. (sleep delay >> attempts execute sleep zero (delay * backoff) backoff errors cmd) x) u
        λ last. absurd (cc last)
  attempts-some (suc n) delay backoff errors cmd w =
      let (r, u) = execute cmd w in
      after_attempt-some r (eqb (suc n) 0) errors
        (λ x.
          (sleep delay >> attempts execute sleep (suc n) (delay * backoff) backoff errors cmd) x)
        u
        λ _.
          again-some (sleep delay u)
            (attempts execute sleep (suc n) (delay * backoff) backoff errors cmd)
            (attempts-some n (delay * backoff) backoff errors cmd)

  -- A call that makes an attempt returns the output of the command or raises, and never returns
  -- `None`.
  pub sudo-some :
      (k : Retry) (cmd : List String) (w : W)
      → 0 < k.retries
      → (sudo execute sleep k cmd w).0 ≢ ok none
  unfolding sudo
  sudo-some k cmd w pos e =
      let n : k.retries ≡ suc (k.retries - 1) = omega arith in
      attempts-some (k.retries - 1) k.delay k.backoff k.errors cmd w (rw n at e)

  module _ (runs : W → ℕ) (errors : List ℕ) (cmd : List String)
      (counted : (w : W) → runs (execute cmd w).1 ≤ suc (runs w))
      (silent : (d : ℕ) (w : W) → runs (sleep d w).1 ≤ runs w) where
    after_attempt-runs :
        (r : Outcome String) (is_last : Bool) (again : Exec W (Option String)) (w : W) (n : ℕ)
        → runs (again w).1 ≤ runs w + n
        → runs (after_attempt execute sleep r is_last errors again w).1 ≤ runs w + n
    unfolding after_attempt
    after_attempt-runs (ok out) is_last again w n h = omega arith
    after_attempt-runs (err (process_error c)) is_last again w n h = ground arith
    after_attempt-runs (err e) is_last again w n h = omega arith

    again-runs :
        (p : Outcome (Unit {0}) × W) (again : Exec W (Option String)) (w : W) (n : ℕ)
        → runs p.1 ≤ runs w
        → ((u : W) → runs (again u).1 ≤ runs u + n)
        → runs (continue p.0 (λ _. again) p.1).1 ≤ runs w + n
    again-runs (ok x, u) again w n le h = omega (arith, h u)
    again-runs (err e, u) again w n le h = omega arith

    attempts-runs :
        (retries delay backoff : ℕ) (w : W)
        → runs (attempts execute sleep retries delay backoff errors cmd w).1 ≤ runs w + retries
    unfolding attempts
    attempts-runs zero delay backoff w = omega arith
    attempts-runs (suc n) delay backoff w =
        let (r, u) = execute cmd w in
        let again = λ (x : W).
          (sleep delay >> attempts execute sleep n (delay * backoff) backoff errors cmd) x in
        let below : runs (again u).1 ≤ runs u + n =
          again-runs (sleep delay u) (attempts execute sleep n (delay * backoff) backoff errors cmd)
            u n (silent delay u) (attempts-runs n (delay * backoff) backoff) in
        omega (arith, after_attempt-runs r (eqb n 0) again u n below, counted w)

  -- The command is run at most `retries` times: a counter that each run raises by at most one, and
  -- that sleeping does not raise, ends at most `retries` higher.
  pub sudo-runs :
      (runs : W → ℕ) (k : Retry) (cmd : List String) (w : W)
      → ((u : W) → runs (execute cmd u).1 ≤ suc (runs u))
      → ((d : ℕ) (u : W) → runs (sleep d u).1 ≤ runs u)
      → runs (sudo execute sleep k cmd w).1 ≤ runs w + k.retries
  unfolding sudo
  sudo-runs runs k cmd w counted silent =
      attempts-runs runs k.errors cmd counted silent k.retries k.delay k.backoff w
