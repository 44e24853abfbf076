-- ===== src/Examples/Publish.antt =====
-- `ControllerPublishVolume` at concrete stores.
use ember_csi.Base.{◌≡◌, ◌↔◌, refl, String, true, Option, some, none, [], ◌∷◌, All}
use ember_csi.Base.Dict.{Dict}
use ember_csi.Rpc.{ok}
use ember_csi.Cinder.{Connection}
use ember_csi.Csi.{PublishRequest, v1_0_0}
use ember_csi.Identity.Lookup.{live, single, get_vols, get_vol, or_absent}
use ember_csi.Controller.Publish.{
  NodeInfo, get_vol_node, requested_node, get_node, first_value, node_or_absent, publish_body,
}
use ember_csi.Controller.Publish.Outcomes.{IsRequested, publish_body-in_use}
use ember_csi.Samples.{Store, store, volume, fake, servicer}

abbrev no_json : String → Option (Dict String)
no_json t = some []

abbrev attached : Connection
attached = record { id = "c1"; volume_id = "v1"; attached_host = "n1"; attach_mode = "ro" }

abbrev published : Store
published =
    store (volume "v1" "data" "in-use" ∷ []) [] (attached ∷ [])
      (record { key = "n1"; value = "{}" } ∷ [])

abbrev node_one : NodeInfo
node_one = record { id = "n1"; connector_dict = [] }

abbrev request : PublishRequest
request = record { volume_id = "v1"; node_id = "n1"; volume_capability = none; readonly = true }

found_published :
    get_vol_node fake no_json (servicer v1_0_0) "v1" "n1" published
    ≡ (ok (volume "v1" "data" "in-use", some node_one), published)
unfolding get_vol_node requested_node get_node first_value node_or_absent get_vol get_vols live
    single or_absent
found_published = refl

publish_body-in_use_example :
    ((publish_body fake no_json (servicer v1_0_0) request published ≡ (ok tt, published))
      ↔ All (IsRequested fake no_json (servicer v1_0_0) request) (attached ∷ []))
    × ((publish_body fake no_json (servicer v1_0_0) request published).1 ≡ published)
publish_body-in_use_example =
    publish_body-in_use fake no_json (servicer v1_0_0) request (volume "v1" "data" "in-use")
      (some node_one) (attached ∷ []) published published published found_published refl refl
