-- ===== src/Resources/Setup/Complete.antt =====
-- What `CRD.ensure_crds_exist` of ember_csi/cl_crd.py leaves in the cluster.
use ember_csi.Base.{
  ◌≡◌, refl, sym, ap, ◌∙◌, String, elem, Bool, true, Bool-cases, inl, inr, ◌⊎◌, List, [], ◌∷◌, All,
  arith,
}
use ember_csi.Rpc.{api_error, Outcome, ok, err}
use ember_csi.Rpc.Inversion.{bind-eq-ok}
use ember_csi.Resources.Setup.{
  CrdClass, api_name, crd_definition, ExtApi, ignore_conflict, create_if_missing, create_missing,
  ensure_crds_exist,
}

-- What the set-up relies on in the API of Kubernetes, where `has w n` says that the cluster has the definition
-- of the name `n`: a conflict is refused because the definition is there.
pub record DefinitionLaws {W : Type 0} (ext : ExtApi W) (domain : String) (has : W → String → Bool)
    : Type 0 where
  pub lists : (w : W) (n : String) → has w n ≡ true → has (ext.list_kinds w).1 n ≡ true
  pub created :
      (c : CrdClass) (w u : W)
      → ext.create_definition (crd_definition domain c) w ≡ (ok tt, u)
      → has u (api_name domain c) ≡ true
  pub conflict :
      (c : CrdClass) (w u : W)
      → ext.create_definition (crd_definition domain c) w ≡ (err (api_error 409), u)
      → has u (api_name domain c) ≡ true
  pub keeps :
      (c : CrdClass) (n : String) (w : W)
      → has w n ≡ true
      → has ((ext.create_definition (crd_definition domain c) w).1) n ≡ true

module _ {W : Type 0} (ext : ExtApi W) (domain : String) (has : W → String → Bool)
    (laws : DefinitionLaws ext domain has) where
  abbrev Has : W → CrdClass → Type 0
  Has w c = has w (api_name domain c) ≡ true

  -- The definition is there, or one of the same kind, of any group, was listed.
  abbrev pub HasOrListed : List String → W → CrdClass → Type 0
  HasOrListed ks w c = Has w c ⊎ (elem c.class_name ks ≡ true)

  ignored :
      (c : CrdClass) (w u : W)
      → (let (r, x) = ext.create_definition (crd_definition domain c) w in ignore_conflict r x)
        ≡ (ok tt, u)
      → Has u c
  ignored c w u h = go (ext.create_definition (crd_definition domain c) w) refl h
    where
      go :
          (p : Outcome (Unit {0}) × W)
          → ext.create_definition (crd_definition domain c) w ≡ p
          → ignore_conflict p.0 p.1 ≡ (ok tt, u)
          → Has u c
      go (ok t, x) e k = laws.created c w u (e ∙ k)
      go (err (api_error n), x) e k = ground (arith, laws.conflict c w u)
      go (err f, x) e k = absurd (cc k)

  ignore_conflict-state : (p : Outcome (Unit {0}) × W) → (ignore_conflict p.0 p.1).1 ≡ p.1
  ignore_conflict-state (ok t, x) = refl
  ignore_conflict-state (err (api_error n), x) = ground arith
  ignore_conflict-state (err f, x) = refl

  -- One class is there afterwards, and every kind that was there still is.
  create_if_missing_lem :
      (current : List String) (c : CrdClass) (w u : W)
      → create_if_missing ext domain current c w ≡ (ok tt, u)
      → HasOrListed current u c × ((k : String) → has w k ≡ true → has u k ≡ true)
  unfolding create_if_missing
  create_if_missing_lem current c w u h = elim (Bool-cases (elem c.class_name current)) [
    | inl there ↦
        let same : w ≡ u =
          ap (λ (p : Outcome (Unit {0}) × W). p.1) (rw (there, create_if_missing) at h) in
        (inr there, λ k x. rw (← same) x)
    | inr missing ↦
        let made : (let (r, x) = ext.create_definition (crd_definition domain c) w in
              ignore_conflict r x)
            ≡ (ok tt, u) =
          rw (missing, create_if_missing) at h in
        let state : (ext.create_definition (crd_definition domain c) w).1 ≡ u =
          sym (ignore_conflict-state (ext.create_definition (crd_definition domain c) w))
          ∙ ap (λ (p : Outcome (Unit {0}) × W). p.1) made in
        (inl (ignored c w u made), λ k x. rw (← state) (laws.keeps c k w x))
  ]

  create_missing_lem :
      (current : List String) (classes : List CrdClass) (w u : W)
      → create_missing ext domain current classes w ≡ (ok tt, u)
      → All (HasOrListed current u) classes × ((k : String) → has w k ≡ true → has u k ≡ true)
  unfolding create_missing
  create_missing_lem current [] w u h =
      let same : w ≡ u = ap (λ (p : Outcome (Unit {0}) × W). p.1) h in (tt, λ k x. rw (← same) x)
  create_missing_lem current (c ∷ cs) w u h =
      let (t, v, one, rest) = bind-eq-ok (create_if_missing ext domain current c) _ w h in
      let (there, kept) = create_if_missing_lem current c w v one in
      let (others, kept') = create_missing_lem current cs v u rest in
      (
        (elim there [ inl x ↦ inl (kept' (api_name domain c) x) | inr x ↦ inr x ], others),
        λ k x. kept' k (kept k x),
      )

  -- Where the set-up succeeds over an API that obeys its laws, the cluster has the definition of every class,
  -- whether it was there, was created, or was created by another process in the meantime, unless a definition
  -- of the same kind, of whatever group, was listed; and no definition is lost.
  pub ensure_crds_exist_complete :
      (classes : List CrdClass) (w u : W)
      → ensure_crds_exist ext domain classes w ≡ (ok tt, u)
      → (ks : List String) × (v : W) × (ext.list_kinds w ≡ (ok ks, v))
        × All (HasOrListed ks u) classes
        × ((n : String) → has w n ≡ true → has u n ≡ true)
  unfolding ensure_crds_exist
  ensure_crds_exist_complete classes w u h =
      let (ks, v, listed, rest) = bind-eq-ok ext.list_kinds _ w h in
      let (all, kept) = create_missing_lem ks classes v u rest in
      (ks, v, listed, all, λ n x. kept n (rw listed at (laws.lists w n x)))
