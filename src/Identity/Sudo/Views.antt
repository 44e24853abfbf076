-- ===== src/Identity/Sudo/Views.antt =====
-- What `sudo` of ember_csi/base.py leaves of the state, and which attempt its output comes from.
use ember_csi.Base.{
  ℕ, zero, suc, ◌≡◌, refl, ◌∙◌, ◌*◌, String, Bool, Option, some, List, eqb, not, ◌||◌, arith,
  Bool-cases, inl, inr, ◌⊎◌,
}
use ember_csi.Rpc.{process_error, Outcome, ok, err, Exec, ◌>>◌, continue}
use ember_csi.Rpc.Inversion.{bind-eq-ok}
use ember_csi.Identity.Sudo.{elem_code, Retry, after_attempt, attempts, sudo}

module _ {W : Type 0} (execute : List String → Exec W String) (sleep : ℕ → Exec W (Unit {0})) where
  module _ {B : Type 0} (view : W → B) (cmd : List String)
      (quiet : (w : W) → view (execute cmd w).1 ≡ view w)
      (slept : (d : ℕ) (w : W) → view (sleep d w).1 ≡ view w) where
    after_attempt-view :
        (r : Outcome String) (is_last : Bool) (errors : List ℕ) (again : Exec W (Option String))
        (w : W)
        → view (again w).1 ≡ view w
        → view (after_attempt execute sleep r is_last errors again w).1 ≡ view w
    unfolding after_attempt
    after_attempt-view (ok out) is_last errors again w h = refl
    after_attempt-view (err (process_error c)) is_last errors again w h = ground arith
    after_attempt-view (err e) is_last errors again w h = refl

    again-view :
        (p : Outcome (Unit {0}) × W) (again : Exec W (Option String))
        → ((u : W) → view (again u).1 ≡ view u)
        → view (continue p.0 (λ _. again) p.1).1 ≡ view p.1
    again-view (ok x, u) again h = h u
    again-view (err e, u) again h = refl

    attempts-view :
        (n delay backoff : ℕ) (errors : List ℕ) (w : W)
        → view (attempts execute sleep n delay backoff errors cmd w).1 ≡ view w
    unfolding attempts
    attempts-view zero delay backoff errors w = refl
    attempts-view (suc n) delay backoff errors w =
        let (r, u) = execute cmd w in
        let rest = attempts execute sleep n (delay * backoff) backoff errors cmd in
        after_attempt-view r (eqb n 0) errors (λ x. (sleep delay >> rest) x) u
          (again-view (sleep delay u) rest (attempts-view n (delay * backoff) backoff errors)
            ∙ slept delay u)
        ∙ quiet w

    -- What neither an attempt nor a pause changes is the same after the call, however it ends.
    pub sudo-view : (k : Retry) (w : W) → view (sudo execute sleep k cmd w).1 ≡ view w
    unfolding sudo
    sudo-view k w = attempts-view k.retries k.delay k.backoff k.errors w

  after_attempt-last :
      (r : Outcome String) (is_last : Bool) (errors : List ℕ) (again : Exec W (Option String))
      (w u : W) (out : String)
      → after_attempt execute sleep r is_last errors again w ≡ (ok (some out), u)
      → (◌≡◌ {A = Outcome String × W} (r, w) (ok out, u)) ⊎ (again w ≡ (ok (some out), u))
  unfolding after_attempt
  after_attempt-last (ok a) is_last errors again w u out h = inl (ground arith)
  after_attempt-last (err (process_error c)) is_last errors again w u out h =
      elim (Bool-cases (not (elem_code c errors) || is_last)) [
        | inl end_here ↦ absurd (cc (rw (end_here, after_attempt) at h))
        | inr go_on ↦ inr (rw (go_on, after_attempt) at h)
      ]
  after_attempt-last (err e) is_last errors again w u out h = absurd (cc h)

  attempts-last :
      (n delay backoff : ℕ) (errors : List ℕ) (cmd : List String) (w u : W) (out : String)
      → attempts execute sleep n delay backoff errors cmd w ≡ (ok (some out), u)
      → (v : W) × (execute cmd v ≡ (ok out, u))
  unfolding attempts
  attempts-last zero delay backoff errors cmd w u out h = absurd (cc h)
  attempts-last (suc n) delay backoff errors cmd w u out h =
      let rest = attempts execute sleep n (delay * backoff) backoff errors cmd in
      elim (after_attempt-last (execute cmd w).0 (eqb n 0) errors (λ x. (sleep delay >> rest) x)
        (execute cmd w).1 u out h) [
          | inl here ↦ (w, here)
          | inr later ↦
              let (x, v, paused, more) =
                bind-eq-ok (sleep delay) (λ _. rest) (execute cmd w).1 later in
              attempts-last n (delay * backoff) backoff errors cmd v u out more
        ]

  -- The output that is returned is the one of an attempt that succeeded, and the state is the one after it.
  pub sudo-last :
      (k : Retry) (cmd : List String) (w u : W) (out : String)
      → sudo execute sleep k cmd w ≡ (ok (some out), u)
      → (v : W) × (execute cmd v ≡ (ok out, u))
  unfolding sudo
  sudo-last k cmd w u out h = attempts-last k.retries k.delay k.backoff k.errors cmd w u out h
