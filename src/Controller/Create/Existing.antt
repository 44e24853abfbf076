-- ===== src/Controller/Create/Existing.antt =====
-- `CreateVolume` of ember_csi/base.py where one volume of the requested name exists already.
use ember_csi.Base.{
  ◌≡◌, ◌≢◌, sym, ◌∙◌, has_infix, elem, ap, String, ◌==◌, eq_iff, true, false, some, none, arith,
  Bool-cases, inl, inr, ◌∷◌, [],
}
use ember_csi.Base.Int.{◌≤ℤ◌}
use ember_csi.Rpc.{Exec, ◌>>=◌, pure, ok, err, abort, already_exists}
use ember_csi.Rpc.Inversion.{bind-eq-ok, bind-ok}
use ember_csi.Cinder.{Volume, Cinder}
use ember_csi.Csi.{CreateVolumeRequest, VolumeMessage, Servicer}
use ember_csi.Identity.Lookup.{one, get_vol}
use ember_csi.Controller.Size.{Sizes, calculate_size}
use ember_csi.Controller.Message.{convert_volume_type}
use ember_csi.Controller.Wait.{wait}
use ember_csi.Controller.Wait.Ends.{wait_ends, IsSettled}
use ember_csi.Controller.Create.{
  validate_requirements, wait_created, existing_or_new, report_created, create_body,
}

settled_not_available : (v : Volume) → IsSettled v → (v.status == "available") ≡ false
settled_not_available v (inr gone) = ap (λ t. t == "available") gone
settled_not_available v (inl failed) = elim (Bool-cases (v.status == "available")) [
  | inl same ↦
      let here : v.status ≡ "available" = (eq_iff v.status "available").0 same in
      cc (sym failed ∙ ap (λ t. has_infix t "error") here)
  | inr other ↦ other
]

-- `_wait` does not see a volume become available.
wait_created_fails :
    {W : Type 0} (cl : Cinder W) (source_vol_id : Volume → Exec W String) (s : Servicer)
    (v v' : Volume) (w w' : W)
    → v.status ≡ "creating"
    → wait_created cl source_vol_id s v w ≡ (ok v', w')
    → (v'.status == "available") ≡ false
unfolding wait_created
wait_created_fails cl source_vol_id s v v' w w' st h =
    let out : elem v.status ("available" ∷ []) ≡ false = ap (λ t. elem t ("available" ∷ [])) st in
    let here : (v.status == "creating") ≡ true = ap (λ t. t == "creating") st in
    let ((b, u), w₁, waited, done) =
      bind-eq-ok (wait cl false s.fuel v ("available" ∷ [])) (λ (_, x). pure x) w (rw here at h) in
    let settled = (wait_ends cl false s.fuel v ("available" ∷ []) w b u w₁ out waited).1 in
    ground (arith, settled_not_available u settled)

module _ {W : Type 0} (cl : Cinder W) (source_vol_id : Volume → Exec W String) (s : Servicer)
    (r : CreateVolumeRequest) (v : Volume) (z : Sizes) (w w₁ w₂ : W)
    (sizes : calculate_size r.capacity_range w ≡ (ok z, w))
    (valid : validate_requirements cl source_vol_id s r w ≡ (ok tt, w₁))
    (found : get_vol cl s none (some r.name) w₁ ≡ (ok (one v), w₂)) where
  create_body-found :
      create_body cl source_vol_id s r w
      ≡ (existing_or_new cl source_vol_id s r z (one v) >>= report_created cl source_vol_id s) w₂
  unfolding create_body
  create_body-found =
      bind-ok (calculate_size r.capacity_range) _ sizes
      ∙ bind-ok (validate_requirements cl source_vol_id s r) _ valid
      ∙ bind-ok (get_vol cl s none (some r.name)) _ found

  -- With an available volume whose size lies in the requested range, the request does what the report of
  -- that volume does in the state after the lookup.
  pub create_body-idempotent :
      v.status ≡ "available"
      → z.min_size ≤ℤ v.size
      → v.size ≤ℤ z.max_size
      → create_body cl source_vol_id s r w ≡ convert_volume_type source_vol_id s v w₂
  unfolding existing_or_new wait_created report_created
  create_body-idempotent st lo hi =
      ground (arith, create_body-found, ap (λ t. t == "available") st, ap (λ t. t == "creating") st)

  -- A volume whose size lies outside the requested range is reported as ALREADY_EXISTS, and nothing
  -- is created or changed after the lookup.
  pub create_body-incompatible :
      (¬ ((z.min_size ≤ℤ v.size) × (v.size ≤ℤ z.max_size)))
      → (details : String) × (create_body cl source_vol_id s r w
          ≡ (err (abort already_exists details), w₂))
  unfolding existing_or_new report_created
  create_body-incompatible out =
      ("Volume already exists but is incompatible", ground (arith, create_body-found))

  -- If the volume is still being created when the request finds it, the request does not succeed.
  pub create_body-creating :
      (m : VolumeMessage) (w' : W)
      → v.status ≡ "creating"
      → create_body cl source_vol_id s r w ≢ (ok m, w')
  unfolding existing_or_new report_created
  create_body-creating m w' st h =
      let (v', u, made, rest) =
        bind-eq-ok (existing_or_new cl source_vol_id s r z (one v))
          (report_created cl source_vol_id s) w₂ (sym create_body-found ∙ h) in
      ground (arith, wait_created_fails cl source_vol_id s v v' w₂ u st)
