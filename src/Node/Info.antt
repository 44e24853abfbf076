-- ===== src/Node/Info.antt =====
-- `NodeInfo.set` of ember_csi/common.py: a node publishes how volumes are connected to it.
pub mod Stored
use ember_csi.Base.{String, Option, some}
use ember_csi.Base.Dict.{Dict}
use ember_csi.Rpc.{Exec, pure, ◌>>=◌, ◌>>◌}
use ember_csi.Cinder.{KeyValue, Cinder}
use ember_csi.Controller.Publish.{NodeInfo}

-- `json_dumps` is Python's `json.dumps`, and `get_connector_properties` the call of os_brick, by the
-- address of the node on the storage network.
module _ {W : Type 0} (cl : Cinder W) (json_dumps : Dict String → String)
    (get_connector_properties : String → Exec W (Dict String)) where
  unfoldable pub set_node : String → String → Exec W NodeInfo
  set_node node_id storage_nw_ip = do
    connector_dict ← get_connector_properties storage_nw_ip
    cl.set_key_value (record { key = node_id; value = json_dumps connector_dict })
    pure (record { id = node_id; connector_dict = connector_dict })
