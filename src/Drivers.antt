-- ===== src/Drivers.antt =====
-- ember_csi/generate_drivers_map.py: the list of the supported drivers, or the map with their details.
pub mod Keys
use ember_csi.Base.{String, ◌==◌, ◌<>◌, Bool, true, false, List, [], ◌∷◌, if◌then◌else◌}
use ember_csi.Base.Dict.{Dict, insert, keys}
use ember_csi.Base.Case.{lower}
use ember_csi.Rpc.{Exec, ◌>>=◌}
use Prim.Native.String.{compare}
use text.Mathlib.Text.{is_le}

-- `get_key`: the text is cut where the rest of it is the word `driver`, in any case, which is its end.
unfoldable pub get_key : String → String
get_key String.[] = ""
get_key (String.◌∷◌ c s) =
    let rest = get_key s in if lower (String.◌∷◌ c s) == "driver" then "" else String.◌∷◌ c rest

-- `sorted(drivers.keys())`
unfoldable pub insert_sorted : String → List String → List String
insert_sorted k [] = k ∷ []
insert_sorted k (j ∷ ks) =
    let rest = insert_sorted k ks in if is_le (compare k j) then k ∷ j ∷ ks else j ∷ rest

unfoldable pub sorted : List String → List String
unfolding insert_sorted
sorted [] = []
sorted (k ∷ ks) = insert_sorted k (sorted ks)

-- `[get_key(k) for k in ...]`
unfoldable pub simple : List String → List String
unfolding get_key
simple [] = []
simple (k ∷ ks) = get_key k ∷ simple ks

-- `{get_key(k): v for k, v in drivers.items()}`, onto the entries that are there.
unfoldable pub detailed {ℓ} : {V : Type ℓ} → Dict V → Dict V → Dict V
unfolding insert get_key
detailed done [] = done
detailed done ((k, v) ∷ drivers) = detailed (insert (get_key k) v done) drivers

pub data Result (V : Type 0) : Type 0 where
  names : List String → Result V
  details : Dict V → Result V

unfoldable pub result_of : {V : Type 0} → Bool → Dict V → Result V
unfolding sorted simple detailed
result_of false drivers = names (simple (sorted (keys drivers)))
result_of true drivers = details (detailed [] drivers)

-- `main`, for the arguments given: cinderlib, the writer of JSON and the output are parameters.
unfoldable pub main :
    {W V : Type 0}
    → Exec W (Dict V)
    → (Result V → String)
    → (String → Exec W (Unit {0}))
    → Bool
    → Exec W (Unit {0})
unfolding result_of
main list_supported_drivers dumps write is_detailed = do
  drivers ← list_supported_drivers
  write (dumps (result_of is_detailed drivers))
