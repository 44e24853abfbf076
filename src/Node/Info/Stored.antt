-- ===== src/Node/Info/Stored.antt =====
-- A node that publishes itself through the custom resources of ember_csi/cl_crd.py.
use ember_csi.Base.{◌≡◌, refl, String, false, Option, none, some, List, [], ◌∷◌}
use ember_csi.Base.Dict.{Dict}
use ember_csi.Rpc.{ok, Exec, pure, ◌>>=◌, ◌>>◌}
use ember_csi.Cinder.{KeyValue, Cinder}
use ember_csi.Csi.{Servicer}
use ember_csi.Controller.Publish.{first_value, get_node}
use ember_csi.Node.Info.{set_node}
use ember_csi.Resources.{Cro, CrdApi}
use ember_csi.Resources.Laws.{ApiLaws}
use ember_csi.Resources.KeyValues.{get_key_value, set_key_value}
use ember_csi.Resources.KeyValues.Stored.{get_key_value-set_key_value}

abbrev values_of : List (KeyValue × Option String) → List KeyValue
values_of [] = []
values_of ((kv, v) ∷ kvs) = kv ∷ values_of kvs

-- The metadata plugin of the cluster in the place of cinderlib's; a fresh value carries no version.
abbrev pub over_crds : {W : Type 0} → Cinder W → CrdApi W → Cinder W
over_crds cl api = record cl {
  get_key_values = λ key. get_key_value api key >>= λ kvs. pure (values_of kvs);
  set_key_value = λ kv. set_key_value api (kv, none) false >> pure tt;
}

module _ {W : Type 0} (cl : Cinder W) (api : CrdApi W) (view : W → String → Option Cro)
    (laws : ApiLaws api view) (json_dumps : Dict String → String)
    (json_loads : String → Option (Dict String))
    (get_connector_properties : String → Exec W (Dict String)) (s : Servicer) where
  -- Over an API that obeys its laws, a node whose connector can be read publishes itself, whatever was
  -- stored by its name before, and the controller then finds it with that connector, where its JSON is
  -- read back as it was written.
  pub set_node_visible :
      (node_id storage_nw_ip : String) (d : Dict String) (w x : W)
      → get_connector_properties storage_nw_ip w ≡ (ok d, x)
      → json_loads (json_dumps d) ≡ some d
      → (u : W) × (set_node
            (over_crds cl api)
            json_dumps
            get_connector_properties
            node_id
            storage_nw_ip
            w
          ≡ (ok (record { id = node_id; connector_dict = d }), u))
        × (get_node (over_crds cl api) json_loads s node_id u
            ≡ (ok (some (record { id = node_id; connector_dict = d })), u))
  unfolding set_node get_node first_value
  set_node_visible node_id storage_nw_ip d w x connected reads =
      let kv : KeyValue = record { key = node_id; value = json_dumps d } in
      let (v, u, stored, found) = get_key_value-set_key_value api view laws kv x in
      (u, rw (connected, stored) refl, rw (found, reads) refl)
