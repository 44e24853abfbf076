-- ===== src/Controller/Validate.antt =====
-- `ValidateVolumeCapabilities` of ember_csi/v0_2_0/csi.py, ember_csi/v0_3_0/csi.py and
-- ember_csi/v1_0_0/csi.py.
pub mod Confirmations
use ember_csi.Base.{
  String, ◌==◌, ◌<>◌, truthy, Bool, true, false, not, Option, none, some, List, [], ◌∷◌,
  if◌then◌else◌,
}
use ember_csi.Base.Dict
use ember_csi.Base.Dict.{Dict}
use ember_csi.Rpc.{not_found, attribute_error, Exec, pure, raise, abort_with, ◌>>=◌}
use ember_csi.Cinder.{Cinder}
use ember_csi.Csi.{
  Topology, ValidateRequest, ValidateResponse, Confirmed, SpecVersion, v0_2_0, v0_3_0, v1_0_0,
  Servicer,
}
use ember_csi.Identity.Lookup.{Found, one, many, get_vol}
use ember_csi.Identity.Capabilities.{capabilities_message}
use ember_csi.Topology.Requirements.{topology_is_accessible}

-- `v != d.get(k)`
unfoldable pub differs : String → Option String → Bool
differs v none = true
differs v (some u) = not (v == u)

-- The loop over the parameters, which returns a message at the first that does not match.
unfoldable pub mismatch : Dict String → Dict String → Option String
unfolding Dict.lookup
mismatch context [] = none
mismatch context ((k, v) ∷ ps) =
    let rest = mismatch context ps in
    if differs v (Dict.lookup k context)
    then some ("Parameter " <> (k <> " does not match"))
    else rest

abbrev pub refusal : String → ValidateResponse
refusal message = record { supported = false; confirmed = none; message = message }

-- `ValidateResp(supported=not bool(message), message=message)`
abbrev pub support : String → ValidateResponse
support message = record { supported = not (truthy message); confirmed = none; message = message }

abbrev pub confirmation : ValidateRequest → ValidateResponse
confirmation r = record {
  supported = false;
  confirmed = some (record {
    volume_context = r.volume_context;
    volume_capabilities = r.volume_capabilities;
    parameters = r.parameters;
  });
  message = "";
}

unfoldable pub confirm_unless : ValidateRequest → Option String → ValidateResponse
confirm_unless r (some message) = refusal message
confirm_unless r none = confirmation r

abbrev pub is_set : Dict String → Bool
is_set [] = false
is_set (_ ∷ _) = true

module _ (s : Servicer) where
  unfoldable pub attributes_message : Dict String → String → String
  attributes_message attributes message =
      if truthy message
      then message
      else if is_set attributes
      then "Parameters don't match"
      else message

  unfoldable pub validate_v0_2 : ValidateRequest → ValidateResponse
  validate_v0_2 r =
      support
        (attributes_message r.volume_attributes (capabilities_message s r.volume_capabilities))

  -- The loop over the topologies. The text stands for one that also prints the topology.
  unfoldable pub topologies_message : {W : Type 0} → List Topology → Exec W String
  topologies_message [] = pure ""
  topologies_message (t ∷ ts) = topology_is_accessible s t >>= λ found. elim found [
    | true ↦ topologies_message ts
    | false ↦ pure "Not accessible from topology"
  ]

  -- A request of v0.3.0 has no field `parameters`, which is read where there are attributes.
  unfoldable pub validate_v0_3 : {W : Type 0} → ValidateRequest → Exec W ValidateResponse
  validate_v0_3 r =
      if truthy (capabilities_message s r.volume_capabilities)
      then pure (refusal (capabilities_message s r.volume_capabilities))
      else if is_set r.volume_attributes
      then raise (attribute_error "parameters")
      else (topologies_message r.accessible_topology >>= λ message. pure (support message))

  unfoldable pub validate_v1_0 : ValidateRequest → ValidateResponse
  validate_v1_0 r =
      if truthy (capabilities_message s r.volume_capabilities)
      then refusal (capabilities_message s r.volume_capabilities)
      else confirm_unless r (mismatch r.volume_context r.parameters)

  unfoldable pub validate_by :
      {W : Type 0} → SpecVersion → ValidateRequest → Exec W ValidateResponse
  validate_by v0_2_0 r = pure (validate_v0_2 r)
  validate_by v0_3_0 r = validate_v0_3 r
  validate_by v1_0_0 r = pure (validate_v1_0 r)

  -- The volume is looked up only to see that there is one.
  unfoldable pub validate_found : {W : Type 0} → ValidateRequest → Found → Exec W ValidateResponse
  validate_found r (many []) =
      abort_with not_found ("Volume " <> (r.volume_id <> " does not exist"))
  validate_found r _ = validate_by s.version r

  -- The body of `ValidateVolumeCapabilities`.
  unfoldable pub validate_body : {W : Type 0} → Cinder W → ValidateRequest → Exec W ValidateResponse
  validate_body cl r = do found ← get_vol cl s (some r.volume_id) none; validate_found r found
