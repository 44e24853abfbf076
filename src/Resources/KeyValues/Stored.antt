-- ===== src/Resources/KeyValues/Stored.antt =====
-- What the class `KeyValue` of ember_csi/cl_crd.py reads back.
use ember_csi.Base.{◌≡◌, refl, eq_refl, String, false, Option, none, some, [], ◌∷◌, arith}
use ember_csi.Base.Dict
use ember_csi.Rpc.{ok}
use ember_csi.Rpc.Inversion.{bind-ok}
use ember_csi.Cinder.{KeyValue}
use ember_csi.Resources.{Cro, CrdApi, apply}
use ember_csi.Resources.Laws.{stamped, ApiLaws}
use ember_csi.Resources.Saves.{apply_saves}
use ember_csi.Resources.KeyValues.{get_key_value, set_key_value}

module _ {W : Type 0} (api : CrdApi W) (view : W → String → Option Cro)
    (laws : ApiLaws api view) where
  abbrev cro_of_pair : KeyValue → Cro
  cro_of_pair kv = record {
    name = kv.key;
    labels = [];
    annotations = ("value", kv.value) ∷ [];
    resource_version = none;
  }

  -- Over an API that obeys its laws, a value that is stored without a version is read back by its key, with the version of the write,
  -- whatever was stored by the key before; reading changes nothing.
  pub get_key_value-set_key_value :
      (kv : KeyValue) (w : W)
      → (v : String) × (u : W) × (set_key_value api (kv, none) false w ≡ (ok (kv, some v), u))
        × (get_key_value api kv.key u ≡ (ok ((kv, some v) ∷ []), u))
  unfolding set_key_value get_key_value Dict.lookup
  get_key_value-set_key_value kv w =
      let (v, u, done, shown) = apply_saves api view laws (cro_of_pair kv) w refl in
      let here : view u kv.key ≡ some (stamped v (cro_of_pair kv)) =
        ground (arith, shown kv.key, eq_refl kv.key) in
      let read = laws.get_there u kv.key (stamped v (cro_of_pair kv)) here in
      (v, u, bind-ok (apply api kv.key (cro_of_pair kv) false) _ done, rw read refl)
