-- ===== src/Controller/Validate/Confirmations.antt =====
-- Which volumes `ValidateVolumeCapabilities` of ember_csi/v1_0_0/csi.py confirms.
use ember_csi.Base.{
  ◌≡◌, ◌↔◌, refl, ap, String, truthy, eq_iff, false, Bool-cases, inl, inr, Option, none, some, [],
  ◌∷◌, All, arith,
}
use ember_csi.Base.Dict
use ember_csi.Base.Dict.{Dict}
use ember_csi.Rpc.{ok}
use ember_csi.Cinder.{Volume, Cinder}
use ember_csi.Csi.{ValidateRequest, v1_0_0, Servicer}
use ember_csi.Identity.Lookup.{one, get_vol}
use ember_csi.Identity.Capabilities.Supported.{IsSupported, message-IsSupported, supported-message}
use ember_csi.Controller.Validate.{
  differs, mismatch, confirm_unless, confirmation, validate_v1_0, validate_by, validate_found,
  validate_body,
}

-- The context has this parameter.
abbrev pub IsMatched : Dict String → String × String → Type 0
IsMatched context (k, v) = Dict.lookup k context ≡ some v

differs_matched :
    (v : String) (found : Option String) → (differs v found ≡ false) ↔ (found ≡ some v)
unfolding differs
differs_matched v none = ground arith
differs_matched v (some u) = ground (arith, eq_iff v u)

mismatch-none :
    (context ps : Dict String) → (mismatch context ps ≡ none) ↔ All (IsMatched context) ps
unfolding mismatch
mismatch-none context [] = (λ h. tt, λ h. refl)
mismatch-none context ((k, v) ∷ ps) =
    let (to, from) = mismatch-none context ps in
    let (to_found, of_found) = differs_matched v (Dict.lookup k context) in
    elim (Bool-cases (differs v (Dict.lookup k context))) [
      | inl bad ↦ (λ h. absurd (cc (rw bad at h)), λ (here, h). absurd (cc (bad, of_found here)))
      | inr same ↦ (λ h. (to_found same, to (rw same at h)), λ (here, h). rw same (from h))
    ]

confirm_unless-confirmation :
    (r : ValidateRequest) (m : Option String) → (confirm_unless r m ≡ confirmation r) ↔ (m ≡ none)
unfolding confirm_unless
confirm_unless-confirmation r m = ground arith

module _ {W : Type 0} (cl : Cinder W) (s : Servicer) (r : ValidateRequest) (v : Volume) (w u : W)
    (found : get_vol cl s (some r.volume_id) none w ≡ (ok (one v), u)) where
  -- A v1.0.0 request about an existing volume is confirmed, with what it asked for, exactly where all
  -- its capabilities are supported and all its parameters are in the context that the request itself gives. The
  -- volume's own context plays no part.
  pub validate_body_confirms :
      s.version ≡ v1_0_0
      → (validate_body s cl r w ≡ (ok (confirmation r), u)) ↔ (
          All (IsSupported s) r.volume_capabilities × All (IsMatched r.volume_context) r.parameters)
  unfolding validate_body validate_found validate_by validate_v1_0
  validate_body_confirms v1 =
      let (to, from) = mismatch-none r.volume_context r.parameters in
      let (known, unknown) =
        confirm_unless-confirmation r (mismatch r.volume_context r.parameters) in
      (
        λ h.
            (message-IsSupported s r.volume_capabilities (ground arith), to (known (ground arith))),
        λ (supported, matched). ground (
          arith,
          ap truthy (supported-message s r.volume_capabilities supported),
          unknown (from matched),
        ),
      )
