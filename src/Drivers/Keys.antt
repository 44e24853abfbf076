-- ===== src/Drivers/Keys.antt =====
-- The keys of ember_csi/generate_drivers_map.py.
use ember_csi.Base.{
  ◌≡◌, ◌⊎◌, inl, inr, refl, ap, ◌∙◌, eq_iff, String, ◌==◌, ◌<>◌, Bool, true, false, Option, some,
  [], ◌∷◌, if◌then◌else◌,
}
use ember_csi.Base.Dict.{Dict, insert, lookup, lookup-insert}
use Prim.Native.String.append.{nil, cons}
use ember_csi.Base.Case.{lower}
use ember_csi.Drivers.{get_key, detailed}

-- The last driver of that key, or what there was before.
abbrev pub last_of {ℓ} : {V : Type ℓ} → String → Dict V → Option V → Option V
last_of key [] before = before
last_of key ((k, v) ∷ drivers) before =
    last_of key drivers (if get_key k == key then some v else before)

module _ {ℓ} {V : Type ℓ} where
  -- Of the drivers whose names have the same key, the last one is in the map, and the others are lost.
  pub lookup-detailed :
      (key : String) (done drivers : Dict V)
      → lookup key (detailed done drivers) ≡ last_of key drivers (lookup key done)
  unfolding detailed
  lookup-detailed key done [] = refl
  lookup-detailed key done ((k, v) ∷ drivers) =
      lookup-detailed key (insert (get_key k) v done) drivers
      ∙ ap (last_of key drivers) (lookup-insert (get_key k) key v done)

-- What is cut off a name is nothing, or the word `driver` in some case.
pub get_key_prefix :
    (name : String)
    → (rest : String) × (get_key name <> rest ≡ name) × ((rest ≡ "") ⊎ (lower rest ≡ "driver"))
unfolding get_key
get_key_prefix String.[] = ("", refl, inl refl)
get_key_prefix (String.◌∷◌ c s) =
    cut (lower (String.◌∷◌ c s) == "driver") (eq_iff (lower (String.◌∷◌ c s)) "driver").0
      (get_key_prefix s)
  where
    cut :
        (b : Bool)
        → (b ≡ true → lower (String.◌∷◌ c s) ≡ "driver")
        → ((rest : String) × (get_key s <> rest ≡ s) × ((rest ≡ "") ⊎ (lower rest ≡ "driver")))
        → (rest : String) × ((if b then "" else String.◌∷◌ c (get_key s)) <> rest ≡ String.◌∷◌ c s)
          × ((rest ≡ "") ⊎ (lower rest ≡ "driver"))
    cut true whole before = (String.◌∷◌ c s, (λ i. nil (String.◌∷◌ c s) i), inr (whole refl))
    cut false whole (rest, same, kind) =
        (rest, (λ i. cons c (get_key s) rest i) ∙ ap (λ t. String.◌∷◌ c t) same, kind)
