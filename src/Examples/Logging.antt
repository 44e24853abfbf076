-- ===== src/Examples/Logging.antt =====
-- The logging of requests, and the nodes that publish themselves, at concrete values.
use ember_csi.Base.{ℕ, ◌≡◌, refl, String, true, false, Option, none, some, List, [], ◌∷◌}
use ember_csi.Base.Dict.{Dict}
use ember_csi.Rpc.{not_found, invalid_argument, abort, ok, err, Exec}
use ember_csi.Csi.{v1_0_0}
use ember_csi.Controller.Publish.{NodeInfo, get_node}
use ember_csi.Node.Info.{set_node}
use ember_csi.Node.Info.Stored.{over_crds, set_node_visible}
use ember_csi.Samples.Cluster.{Cluster, cluster_api, cluster_laws, view, no_cinder}
use ember_csi.Samples.{servicer}
use ember_csi.Rpc.Logging.{Entry, failed, Message, Response, tab, opening}
use ember_csi.Rpc.Debugging.{Debugger}
use ember_csi.Rpc.Served.{served}
use ember_csi.Rpc.Served.Outcomes.{served_refused}

-- A request that names a volume, and a handler that finds none.
abbrev message : Message
message = record { fields = ("volume_id", "v1") ∷ []; shown = "volume_id: v1\n"; is_listed = true }

abbrev response : Response
response = record { message = message; volume = none; snapshot = none }

abbrev missing : ℕ → Exec ℕ ℕ
missing r n = (err (abort not_found "Volume v1 does not exist"), r)

indented : tab "a\n\nb" ≡ "\ta\n\tb"
unfolding tab
indented = refl

abbrev set_trace : Debugger → Exec (ℕ × List Entry) (Unit {0})
set_trace d x = (ok tt, x)

served_refused_example :
    (d : String) × (served set_trace
        (λ r. "volume_id" ∷ [])
        (λ r. message)
        (λ r. response)
        none
        false
        "ControllerPublishVolume"
        ("volume_id" ∷ "node_id" ∷ [])
        missing
        7
        (0, [])
      ≡ (
        err (abort invalid_argument d),
        (
          0,
          failed "ControllerPublishVolume" invalid_argument d
              ∷ opening message "ControllerPublishVolume" [],
        ),
      ))
served_refused_example =
    served_refused set_trace (λ r. "volume_id" ∷ []) (λ r. message) (λ r. response) none
      "ControllerPublishVolume" ("volume_id" ∷ "node_id" ∷ []) missing 7 0 [] "node_id" refl refl

-- A node whose connector has one property, which is written as a constant text.
abbrev connector : Dict String
connector = ("host", "n1") ∷ []

abbrev dumps : Dict String → String
dumps d = "{host: n1}"

abbrev loads : String → Option (Dict String)
loads t = some connector

abbrev properties : String → Exec Cluster (Dict String)
properties ip w = (ok connector, w)

abbrev bare : Cluster
bare = record { objects = []; writes = 0 }

abbrev node : NodeInfo
node = record { id = "n1"; connector_dict = connector }

set_node_visible_example :
    (u : Cluster) × (set_node
        (over_crds no_cinder cluster_api)
        dumps
        properties
        "n1"
        "10.0.0.1"
        bare
      ≡ (ok node, u))
    × (get_node (over_crds no_cinder cluster_api) loads (servicer v1_0_0) "n1" u
        ≡ (ok (some node), u))
set_node_visible_example =
    set_node_visible no_cinder cluster_api view cluster_laws dumps loads properties
      (servicer v1_0_0) "n1" "10.0.0.1" connector bare bare refl refl
