-- ===== src/Rpc/Effects.antt =====
-- How an action changes the state, whatever it returns or raises.
use ember_csi.Base.{String, ◌≡◌, refl, ◌∙◌, Bool, true, false}
use ember_csi.Rpc.{Fault, Outcome, ok, err, Exec, Code, continue, abort_if, ◌>>=◌}

-- A property of what a chain leaves holds if it holds after each way through it.
pub bind_cases {ℓ} :
    {W A B : Type 0} (P : Outcome B × W → Type ℓ) (m : Exec W A) (f : A → Exec W B) (w : W)
    → ((a : A) (u : W) → m w ≡ (ok a, u) → P (f a u))
    → ((e : Fault) (u : W) → m w ≡ (err e, u) → P (err e, u))
    → P ((m >>= f) w)
bind_cases {W} {A} {B} P m f w returns raises = go (m w) refl
  where
    go : (p : Outcome A × W) → m w ≡ p → P (continue p.0 f p.1)
    go (ok a, u) e = returns a u e
    go (err x, u) e = raises x u e

-- The action leaves what `view` shows of the state.
abbrev pub IsQuiet {ℓ} : {W A : Type 0} {V : Type ℓ} → (W → V) → Exec W A → Type ℓ
IsQuiet {W = W} view m = (w : W) → view (m w).1 ≡ view w

module _ {ℓ} {W : Type 0} {V : Type ℓ} (view : W → V) where
  pub bind-IsQuiet :
      {A B : Type 0} (m : Exec W A) (f : A → Exec W B)
      → IsQuiet view m
      → ((a : A) → IsQuiet view (f a))
      → IsQuiet view (m >>= f)
  bind-IsQuiet m f quiet rest w =
      bind_cases (λ p. view p.1 ≡ view w) m f w (λ a u e. rest a u ∙ rw e at (quiet w))
        (λ x u e. rw e at (quiet w))

  pub abort_if-IsQuiet : (b : Bool) (c : Code) (d : String) → IsQuiet view (abort_if b c d)
  abort_if-IsQuiet true c d w = refl
  abort_if-IsQuiet false c d w = refl

  -- What an action leaves, from an equation for its run.
  pub quiet_at :
      {A : Type 0} (m : Exec W A) {w u : W} {r : Outcome A}
      → IsQuiet view m
      → m w ≡ (r, u)
      → view u ≡ view w
  quiet_at m {w} quiet e = rw e at (quiet w)
