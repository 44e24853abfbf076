-- ===== src/Examples/Validate.antt =====
-- `ValidateVolumeCapabilities` at a concrete store.
use ember_csi.Base.{◌≡◌, ◌↔◌, refl, String, none, some, [], ◌∷◌, All}
use ember_csi.Base.Dict.{Dict}
use ember_csi.Rpc.{ok, err, attribute_error}
use ember_csi.Csi.{SpecVersion, v0_3_0, v1_0_0, ValidateRequest}
use ember_csi.Identity.Lookup.{one, get_vol, get_vols, live, single}
use ember_csi.Identity.Capabilities.{capabilities_message, unsupported_mode, unsupported_fs_type}
use ember_csi.Identity.Capabilities.Supported.{IsSupported}
use ember_csi.Controller.Validate.{
  confirmation, validate_body, validate_found, validate_by, validate_v0_3,
}
use ember_csi.Controller.Validate.Confirmations.{IsMatched, validate_body_confirms}
use ember_csi.Samples.{Store, store, volume, fake, servicer, ext4}

abbrev holding : Store
holding = store (volume "v1" "data" "available" ∷ []) [] [] []

abbrev request : Dict String → ValidateRequest
request attributes = record {
  volume_id = "v1";
  volume_capabilities = ext4 ∷ [];
  volume_attributes = attributes;
  accessible_topology = [];
  volume_context = ("speed", "fast") ∷ [];
  parameters = ("speed", "fast") ∷ [];
}

found_by :
    (v : SpecVersion)
    → get_vol fake (servicer v) (some "v1") none holding
      ≡ (ok (one (volume "v1" "data" "available")), holding)
unfolding get_vol get_vols live single
found_by v = refl

validate_body_confirms_example :
    (validate_body (servicer v1_0_0) fake (request []) holding
      ≡ (ok (confirmation (request [])), holding))
    ↔ (All (IsSupported (servicer v1_0_0)) (ext4 ∷ [])
        × All (IsMatched (("speed", "fast") ∷ [])) (("speed", "fast") ∷ []))
validate_body_confirms_example =
    validate_body_confirms fake (servicer v1_0_0) (request []) (volume "v1" "data" "available")
      holding holding (found_by v1_0_0) refl

-- A v0.3.0 request with volume attributes ends with AttributeError.
attributes_fail :
    validate_body (servicer v0_3_0) fake (request (("speed", "fast") ∷ [])) holding
    ≡ (err (attribute_error "parameters"), holding)
unfolding validate_body validate_found validate_by validate_v0_3 get_vol get_vols live single
    capabilities_message unsupported_mode unsupported_fs_type
attributes_fail = refl
