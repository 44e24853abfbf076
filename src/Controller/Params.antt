-- ===== src/Controller/Params.antt =====
-- `_convert_volume_params` of ember_csi/base.py: the parameters of a request are sorted into QoS
-- specs, extra specs and the rest, and the forbidden ones are dropped.
pub mod Sorting
use Prim.Native.String.{slice, len}
use ember_csi.Base.{String, ◌==◌, starts_with, elem, List, [], ◌∷◌, if◌then◌else◌}
use ember_csi.Base.Dict
use ember_csi.Base.Dict.{Dict}
use ember_csi.Rpc.{type_error, Outcome, ok, err}
use ember_csi.Cinder.{VolumeParams, Specs, specs, text}

abbrev pub forbidden_vol_params : List String
forbidden_vol_params = "id" ∷ "name" ∷ "size" ∷ "volume_size" ∷ []

-- `k[n:]`, for a prefix of `n` ASCII characters.
abbrev pub tail_from : String → String → String
tail_from k prefix = slice k (len prefix) (len k)

-- `params['extra_specs'][k] = v`: a text takes no assignment.
abbrev put_spec : String → String → Specs → Outcome Specs
put_spec k v (specs d) = ok (specs (Dict.insert k v d))
put_spec k v (text s) = err type_error

abbrev set_extra : VolumeParams → Outcome Specs → Outcome VolumeParams
set_extra p (ok e) = ok (record p { extra_specs = e })
set_extra p (err e) = err e

-- The body of the loop over the request's parameters.
unfoldable pub add_param : String → String → VolumeParams → Outcome VolumeParams
unfolding Dict.insert
add_param k v p =
    if elem k forbidden_vol_params
    then ok p
    else if starts_with k "qos_"
    then ok (record p { qos_specs = Dict.insert (tail_from k "qos_") v p.qos_specs })
    else if starts_with k "xtra_"
    then set_extra p (put_spec (tail_from k "xtra_") v p.extra_specs)
    else if k == "extra_specs"
    then ok (record p { extra_specs = text v })
    else ok (record p { rest = Dict.insert k v p.rest })

unfoldable pub add_params : Dict String → VolumeParams → Outcome VolumeParams
add_params [] p = ok p
add_params ((k, v) ∷ params) p = elim (add_param k v p) [
  | ok p' ↦ add_params params p'
  | err e ↦ err e
]

abbrev pub no_params : VolumeParams
no_params = record { qos_specs = []; extra_specs = specs []; rest = [] }

unfoldable pub convert_volume_params : Dict String → Outcome VolumeParams
convert_volume_params params = add_params params no_params
