-- ===== src/Identity/Capabilities/Supported.antt =====
-- Which capabilities `_validate_capabilities` of ember_csi/base.py accepts.
use ember_csi.Base.{
  Bool-cases, ◌≡◌, refl, ◌⊎◌, ◌↔◌, elem, truthy, true, false, List, [], ◌∷◌, All, arith, inl, inr,
  eq_iff,
}
use ember_csi.Rpc.{ok}
use ember_csi.Csi.{
  AccessMode, single_node_writer, single_node_reader_only, AccessType, mount, unset, block,
  VolumeCapability, Servicer,
}
use ember_csi.Identity.Capabilities.{
  unsupported_mode, unsupported_fs_type, capabilities_message, validate_capabilities,
}

module _ (s : Servicer) where
  -- A single node, and a file system that the host can make, where one is asked for.
  abbrev pub IsSupportedType : AccessType → Type 0
  IsSupportedType (mount m) = (m.fs_type ≡ "") ⊎ (elem m.fs_type s.supported_fs_types ≡ true)
  IsSupportedType _ = Unit

  abbrev pub IsSupported : VolumeCapability → Type 0
  IsSupported c =
      ((c.access_mode ≡ single_node_writer) ⊎ (c.access_mode ≡ single_node_reader_only))
      × IsSupportedType c.access_type

  mode_supported :
      (m : AccessMode)
      → unsupported_mode m ≡ false
      → (m ≡ single_node_writer) ⊎ (m ≡ single_node_reader_only)
  unfolding unsupported_mode
  mode_supported m h = ground arith

  type_supported : (t : AccessType) → (unsupported_fs_type s t ≡ false) → IsSupportedType t
  unfolding unsupported_fs_type
  type_supported unset h = tt
  type_supported block h = tt
  type_supported (mount m) h = ground (arith, eq_iff m.fs_type "")

  supported_mode :
      (m : AccessMode)
      → (m ≡ single_node_writer) ⊎ (m ≡ single_node_reader_only)
      → unsupported_mode m ≡ false
  unfolding unsupported_mode
  supported_mode m h = ground arith

  supported_type : (t : AccessType) → IsSupportedType t → unsupported_fs_type s t ≡ false
  unfolding unsupported_fs_type
  supported_type unset h = refl
  supported_type block h = refl
  supported_type (mount m) h = ground (arith, eq_iff m.fs_type "")

  pub message-IsSupported :
      (cs : List VolumeCapability) → truthy (capabilities_message s cs) ≡ false → All IsSupported cs
  unfolding capabilities_message
  message-IsSupported [] h = tt
  message-IsSupported (c ∷ cs) h = elim (Bool-cases (unsupported_mode c.access_mode)) [
    | inl bad ↦ absurd (cc (rw bad at h))
    | inr mode_fits ↦ elim (Bool-cases (unsupported_fs_type s c.access_type)) [
      | inl bad ↦ absurd (cc (rw (mode_fits, bad) at h))
      | inr type_fits ↦ (
        (mode_supported c.access_mode mode_fits, type_supported c.access_type type_fits),
        message-IsSupported cs (rw (mode_fits, type_fits) at h),
      )
    ]
  ]

  pub supported-message :
      (cs : List VolumeCapability) → All IsSupported cs → capabilities_message s cs ≡ ""
  unfolding capabilities_message
  supported-message [] h = refl
  supported-message (c ∷ cs) h =
      rw (supported_mode c.access_mode h.0.0, supported_type c.access_type h.0.1)
        (supported-message cs h.1)

  -- Exactly the lists of supported capabilities are accepted, with nothing changed.
  pub validate_capabilities-ok :
      {W : Type 0} (cs : List VolumeCapability) (w : W)
      → (validate_capabilities s cs w ≡ (ok tt, w)) ↔ All IsSupported cs
  unfolding validate_capabilities
  validate_capabilities-ok cs w =
      (λ h. message-IsSupported cs (ground arith), λ h. rw (supported-message cs h))
