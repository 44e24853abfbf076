-- ===== src/Controller/Create.antt =====
-- `CreateVolume` and `_create_volume`, `_create_from_vol` of the controllers, and `_get_snap`,
-- `_create_from_snap` of `SnapshotBase`, in ember_csi/base.py and ember_csi/v*/csi.py.
pub mod Existing
use ember_csi.Base.{
  String, ◌==◌, ◌<>◌, elem, false, not, ◌&&◌, Option, none, some, List, [], ◌∷◌, if◌then◌else◌,
}
use ember_csi.Base.Dict.{Dict}
use ember_csi.Base.Int.{ℤ, ltb_ℤ, leb_ℤ}
use ember_csi.Rpc.{
  invalid_argument, not_found, already_exists, aborted, out_of_range, attribute_error, type_error,
  Exec, pure, raise, abort_with, abort_if, ◌>>=◌, ◌>>◌,
}
use ember_csi.Cinder.{Volume, VolumeParams, Cinder}
use ember_csi.Csi.{
  ContentSource, from_snapshot, from_volume, CreateVolumeRequest, VolumeMessage, SpecVersion,
  v0_2_0, v0_3_0, v1_0_0, Servicer,
}
use ember_csi.Identity.Capabilities.{validate_capabilities}
use ember_csi.Identity.Lookup.{Found, one, many, get_vol, or_absent}
use ember_csi.Topology.Requirements.{validate_accessibility}
use ember_csi.Controller.Size.{Sizes, calculate_size}
use ember_csi.Controller.Wait.{wait}
use ember_csi.Controller.Params.{convert_volume_params}
use ember_csi.Controller.Message.{convert_volume_type}
use ember_csi.Snapshot.Lookup.{get_snap, or_absent_snap}

-- A call with `**params`: a key that names another argument of the call is a TypeError.
unfoldable pub check_keywords : {W : Type 0} → List String → Dict String → Exec W (Unit {0})
check_keywords arguments [] = pure tt
check_keywords arguments ((k, v) ∷ params) =
    if elem k arguments then raise type_error else check_keywords arguments params

module _ {W : Type 0} (cl : Cinder W) (source_vol_id : Volume → Exec W String) (s : Servicer) where
  -- `_validate_requirements`: the controllers of v0.3.0 and v1.0.0 check the topology too.
  unfoldable pub validate_requirements : CreateVolumeRequest → Exec W (Unit {0})
  validate_requirements r = validate_capabilities s r.volume_capabilities >> elim s.version [
    | v0_2_0 ↦ pure tt
    | _ ↦ validate_accessibility s r.accessibility_requirements none
  ]

  unfoldable pub create_from_snap : String → ℤ → String → VolumeParams → Exec W Volume
  create_from_snap snap_id vol_size name params = do
    found ← get_snap cl (some snap_id) none none
    snap ←
        or_absent_snap found "status"
          (abort_with not_found ("Snapshot " <> (snap_id <> " does not exist")))
    abort_if (not (snap.status == "available")) invalid_argument
        ("Snapshot " <> (snap_id <> " is not available"))
    abort_if (ltb_ℤ vol_size snap.volume_size) out_of_range
        ("Snapshot " <> (snap_id <> " is bigger than requested volume"))
    cl.create_from_snapshot snap name params

  unfoldable pub create_from_vol : String → ℤ → String → VolumeParams → Exec W Volume
  create_from_vol vol_id vol_size name params = do
    found ← get_vol cl s (some vol_id) none
    src ←
        or_absent found "status" (abort_with not_found ("Volume " <> (vol_id <> " does not exist")))
    abort_if (not (elem src.status ("available" ∷ "in-use" ∷ []))) invalid_argument
        ("Volume " <> (vol_id <> " is not available"))
    abort_if (ltb_ℤ vol_size src.size) out_of_range
        ("Volume " <> (vol_id <> " is bigger than requested volume"))
    cl.clone src name vol_size params

  -- `_create_volume` by version. The v0.2.0 request has no content source. The v0.3.0 controller
  -- reads `source.snapshot.snapshot_id`, and the field of that message is called `id`.
  unfoldable pub create_content :
      SpecVersion → Option ContentSource → ℤ → String → VolumeParams → Exec W Volume
  create_content v0_2_0 source vol_size name params = cl.create_volume vol_size name params
  create_content v0_3_0 none vol_size name params = cl.create_volume vol_size name params
  create_content v0_3_0 (some source) vol_size name params = raise (attribute_error "snapshot_id")
  create_content v1_0_0 none vol_size name params = cl.create_volume vol_size name params
  create_content v1_0_0 (some (from_snapshot id)) vol_size name params =
      check_keywords ("snap_id" ∷ []) params.rest >> create_from_snap id vol_size name params
  create_content v1_0_0 (some (from_volume id)) vol_size name params =
      check_keywords ("vol_id" ∷ []) params.rest >> create_from_vol id vol_size name params

  -- Another thread or node may still be creating the volume.
  unfoldable pub wait_created : Volume → Exec W Volume
  wait_created vol =
      if vol.status == "creating"
      then (wait cl false s.fuel vol ("available" ∷ []) >>= λ (_, v). pure v)
      else pure vol

  -- An existing volume of the name, or a new one where there is not exactly one.
  unfoldable pub existing_or_new : CreateVolumeRequest → Sizes → Found → Exec W Volume
  existing_or_new r sizes (one vol) = do
    abort_if (not (leb_ℤ sizes.min_size vol.size && leb_ℤ vol.size sizes.max_size)) already_exists
        "Volume already exists but is incompatible"
    wait_created vol
  existing_or_new r sizes (many vols) = do
    params ← (λ w. (convert_volume_params r.parameters, w))
    check_keywords ("self" ∷ "vol_size" ∷ "request" ∷ "context" ∷ []) params.rest
    create_content s.version r.volume_content_source sizes.vol_size r.name params

  -- The last part of `CreateVolume`.
  unfoldable pub report_created : Volume → Exec W VolumeMessage
  report_created vol = do
    abort_if (not (vol.status == "available")) aborted
        ("Operation pending for volume (" <> (vol.status <> ")"))
    convert_volume_type source_vol_id s vol

  -- The body of `CreateVolume`.
  unfoldable pub create_body : CreateVolumeRequest → Exec W VolumeMessage
  create_body r = do
    sizes ← calculate_size r.capacity_range
    validate_requirements r
    found ← get_vol cl s none (some r.name)
    vol ← existing_or_new r sizes found
    report_created vol
