-- ===== src/Topology/Requirements/Acceptance.antt =====
-- Which topology requirements `_validate_accessible_requirements` of ember_csi/base.py accepts.
use ember_csi.Base.{
  ◌≡◌, ◌≢◌, refl, Bool, true, false, ◌⊎◌, inl, inr, Option, some, none, List, [], ◌∷◌, All, arith,
  Bool-cases,
}
use ember_csi.Rpc.{ok, pure, ◌>>=◌}
use ember_csi.Csi.{Topology, TopologyRequirement, Servicer}
use ember_csi.Topology.Accessible.{is_accessible}
use ember_csi.Topology.Requirements.{
  elem_topology, all_requisite, or_diverged, topology_is_accessible, any_accessible,
  check_requisite, validate_accessible_requirements,
}

-- Some topology of the list is accessible.
abbrev pub Some {ℓ} : {A : Type ℓ} → (A → Type 0) → List A → Type 0
Some P [] = ⊥
Some P (x ∷ xs) = P x ⊎ Some P xs

all_requisite_sound :
    (ps ts : List Topology) → all_requisite ps ts ≡ true → All (λ p. elem_topology p ts ≡ true) ps
unfolding all_requisite
all_requisite_sound [] ts h = tt
all_requisite_sound (p ∷ ps) ts h = ground (arith, all_requisite_sound ps ts)

abbrev pub IsAccessible : Servicer → Topology → Type 0
IsAccessible s t = is_accessible s.topology_hiera t ≡ some true

module _ (s : Servicer) {W : Type 0} where
  any_accessible_sound :
      (ts : List Topology) (w u : W)
      → any_accessible s ts w ≡ (ok tt, u)
      → Some (IsAccessible s) ts × (u ≡ w)
  unfolding any_accessible topology_is_accessible or_diverged
  any_accessible_sound [] w u h = absurd (cc)
  any_accessible_sound (t ∷ ts) w u h =
      go (is_accessible s.topology_hiera t) refl (any_accessible_sound ts w u) h
    where
      go :
          (found : Option Bool)
          → is_accessible s.topology_hiera t ≡ found
          → (any_accessible s ts w ≡ (ok tt, u) → Some (IsAccessible s) ts × (u ≡ w))
          → (or_diverged found >>= λ found. elim found [
            | true ↦ pure tt
            | false ↦ any_accessible s ts
          ])
              w
            ≡ (ok tt, u)
          → Some (IsAccessible s) (t ∷ ts) × (u ≡ w)
      go none e ih k = absurd (cc k)
      go (some true) e ih k = (inl e, ground arith)
      go (some false) e ih k = let (x, y) = ih k in (inr x, y)

  check_requisite_sound :
      (ts ps : List Topology) (w u : W)
      → check_requisite s ts ps w ≡ (ok tt, u)
      → (u ≡ w)
        × ((ts ≡ [] × (ps ≢ []))
            ⊎ (Some (IsAccessible s) ts × All (λ p. elem_topology p ts ≡ true) ps))
  unfolding check_requisite
  check_requisite_sound [] [] w u k = absurd (cc k)
  check_requisite_sound [] (p ∷ ps) w u k = (ground arith, inl (refl, λ e. cc e))
  check_requisite_sound (t ∷ ts) ps w u k = elim (Bool-cases (all_requisite ps (t ∷ ts))) [
    | inl all ↦
        let (found, same) = any_accessible_sound (t ∷ ts) w u (rw all at k) in
        (same, inr (found, all_requisite_sound ps (t ∷ ts) all))
    | inr other ↦ absurd (cc (rw other at k))
  ]

  -- Requirements that are accepted either name no requisite topology and some preferred one, or have
  -- an accessible requisite topology and only preferred topologies that are requisite. Nothing is
  -- changed.
  pub validate_accessible_requirements_sound :
      (r : TopologyRequirement) (w u : W)
      → validate_accessible_requirements s r w ≡ (ok tt, u)
      → (u ≡ w)
        × ((r.requisite ≡ [] × (r.preferred ≢ []))
            ⊎ (Some (IsAccessible s) r.requisite
                × All (λ p. elem_topology p r.requisite ≡ true) r.preferred))
  unfolding validate_accessible_requirements
  validate_accessible_requirements_sound r w u h =
      check_requisite_sound r.requisite r.preferred w u h
