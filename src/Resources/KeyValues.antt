-- ===== src/Resources/KeyValues.antt =====
-- The class `KeyValue` of ember_csi/cl_crd.py: the key is the name of the resource, and the value is in an
-- annotation.
pub mod Stored
use ember_csi.Base.{
  ◌≡◌, refl, eq_refl, String, Option, none, some, List, [], ◌∷◌, arith, if◌then◌else◌, Bool,
}
use ember_csi.Base.Dict
use ember_csi.Rpc.{api_error, key_error, Outcome, ok, err, Exec, pure, raise, ◌>>=◌}
use ember_csi.Cinder.{KeyValue}
use ember_csi.Resources.{
  Cro, CrdApi, try_absent, try_any, handle_any, replace_found, replace_or_create, apply_known,
  apply,
}
use ember_csi.Resources.Laws.{stamped, ApiLaws}

module _ {W : Type 0} (api : CrdApi W) where
  abbrev pub with_value :
      String → Option String → Option String → Exec W (List (KeyValue × Option String))
  with_value key none version = raise key_error
  with_value key (some value) version = pure ((record { key = key; value = value }, version) ∷ [])

  -- A value and the version that it was read as.
  unfoldable pub get_key_value : String → Exec W (List (KeyValue × Option String))
  unfolding Dict.lookup
  get_key_value key =
      try_absent
        (api.get_object key >>= λ res.
          with_value key (Dict.lookup "value" res.annotations) res.resource_version)
        (pure [])

  unfoldable pub set_key_value : KeyValue × Option String → Bool → Exec W (KeyValue × Option String)
  set_key_value (kv, version) is_new = do
    res ←
        apply api kv.key
          (record {
            name = kv.key;
            labels = [];
            annotations = ("value", kv.value) ∷ [];
            resource_version = version;
          })
          is_new
    pure (kv, res.resource_version)
