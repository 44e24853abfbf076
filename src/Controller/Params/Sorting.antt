-- ===== src/Controller/Params/Sorting.antt =====
-- Where `_convert_volume_params` of ember_csi/base.py puts each parameter of a request.
use ember_csi.Base.{
  String, ◌≡◌, ap, refl, ◌==◌, eq_iff, starts_with, elem, Bool, ◌||◌, Option, none, some, [], ◌∷◌,
  Bool-cases, inl, inr, arith, if◌then◌else◌,
}
use ember_csi.Base.Dict.{Dict, lookup, lookup-insert}
use ember_csi.Rpc.{Outcome, ok, err}
use ember_csi.Cinder.{VolumeParams}
use ember_csi.Controller.Params.{
  no_params, forbidden_vol_params, add_param, add_params, convert_volume_params,
}

-- The keys that do not reach the driver as arguments of their own.
pub is_taken : String → Bool
is_taken k =
    elem k forbidden_vol_params
    || (starts_with k "qos_" || (starts_with k "xtra_" || (k == "extra_specs")))

add_param-rest :
    (j k v : String) (p p' : VolumeParams)
    → add_param k v p ≡ ok p'
    → lookup j p'.rest
      ≡ (if is_taken k then lookup j p.rest else (if k == j then some v else lookup j p.rest))
unfolding add_param is_taken
add_param-rest j k v p p' h = ground (arith, lookup-insert k j v p.rest)

-- The parameters of a request have distinct keys.
abbrev pub HasDistinctKeys : Dict String → Type 0
HasDistinctKeys [] = Unit
HasDistinctKeys ((k, _) ∷ d) = (lookup k d ≡ none) × HasDistinctKeys d

abbrev pub passed_on : String → Dict String → Option String
passed_on j params = if is_taken j then none else lookup j params

abbrev or_else : Option String → Option String → Option String
or_else (some v) o = some v
or_else none o = o

-- One round of the loop, with what the other rounds do.
sorted_step :
    (j k v : String) (params : Dict String) (o o' o'' : Option String)
    → lookup k params ≡ none
    → o' ≡ (if is_taken k then o else if k == j then some v else o)
    → o'' ≡ or_else (passed_on j params) o'
    → o'' ≡ or_else (passed_on j ((k, v) ∷ params)) o
unfolding lookup
sorted_step j k v params o o' o'' fresh one others = elim (Bool-cases (k == j)) [
  | inl same ↦
      let e : k ≡ j = (eq_iff k j).0 same in
      ground (arith, ap is_taken e, ap (λ i. lookup i params) e)
  | inr differ ↦ ground arith
]

add_params-rest :
    (j : String) (params : Dict String) (p p' : VolumeParams)
    → HasDistinctKeys params
    → add_params params p ≡ ok p'
    → lookup j p'.rest ≡ or_else (passed_on j params) (lookup j p.rest)
unfolding add_params lookup
add_params-rest j [] p p' dict h = ground arith
add_params-rest j ((k, v) ∷ params) p p' dict h =
    go (add_param k v p) refl (λ q. add_params-rest j params q p' dict.1) h
  where
    go :
        (r : Outcome VolumeParams)
        → add_param k v p ≡ r
        → ((q : VolumeParams)
            → add_params params q ≡ ok p'
            → lookup j p'.rest ≡ or_else (passed_on j params) (lookup j q.rest))
        → (elim r [ ok q ↦ add_params params q | err e ↦ err e ]) ≡ ok p'
        → lookup j p'.rest ≡ or_else (passed_on j ((k, v) ∷ params)) (lookup j p.rest)
    go (err e) step others rest = absurd (cc rest)
    go (ok q) step others rest =
        sorted_step j k v params (lookup j p.rest) (lookup j q.rest) (lookup j p'.rest) dict.0
          (add_param-rest j k v p q step) (others q rest)

-- A parameter reaches the driver as an argument of its own exactly if its key is not forbidden, has
-- neither of the two prefixes and is not `extra_specs`; then it has the value of the request.
pub convert_volume_params-rest :
    (j : String) (params : Dict String) (p : VolumeParams)
    → HasDistinctKeys params
    → convert_volume_params params ≡ ok p
    → lookup j p.rest ≡ passed_on j params
unfolding convert_volume_params lookup
convert_volume_params-rest j params p dict h =
    ground (arith, add_params-rest j params no_params p dict)
