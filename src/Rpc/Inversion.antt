-- ===== src/Rpc/Inversion.antt =====
-- What a chain of actions says about its parts.
use ember_csi.Base.{◌≡◌, refl}
use ember_csi.Rpc.{Fault, Outcome, ok, err, Exec, continue, ◌>>=◌}

module _ {ℓ} {W A B : Type ℓ} where
  -- A chain that returns has returned from its first action.
  pub bind-eq-ok :
      (m : Exec W A) (f : A → Exec W B) (w : W) {b : B} {w' : W}
      → (m >>= f) w ≡ (ok b, w')
      → (a : A) × (u : W) × (m w ≡ (ok a, u)) × (f a u ≡ (ok b, w'))
  bind-eq-ok m f w {b} {w'} h = go (m w) refl h
    where
      go :
          (p : Outcome A × W)
          → m w ≡ p
          → continue p.0 f p.1 ≡ (ok b, w')
          → (a : A) × (u : W) × (m w ≡ (ok a, u)) × (f a u ≡ (ok b, w'))
      go (ok a, u) e k = (a, u, e, k)
      go (err x, u) e k = absurd (cc)

  -- A chain goes on where its first action has returned, and ends where it has raised.
  pub bind-ok :
      (m : Exec W A) (f : A → Exec W B) {w u : W} {a : A} → m w ≡ (ok a, u) → (m >>= f) w ≡ f a u
  bind-ok m f e = rw e

  pub bind-err :
      (m : Exec W A) (f : A → Exec W B) {w u : W} {x : Fault}
      → m w ≡ (err x, u)
      → (m >>= f) w ≡ (err x, u)
  bind-err m f e = rw e
