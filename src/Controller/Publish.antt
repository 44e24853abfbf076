-- ===== src/Controller/Publish.antt =====
-- `_get_vol_node`, `ControllerPublishVolume` and `ControllerUnpublishVolume` of ember_csi/base.py,
-- with `NodeInfo.get` of ember_csi/common.py.
pub mod Outcomes
use ember_csi.Base.{
  String, ◌==◌, ◌<>◌, truthy, elem, Bool, true, false, not, Option, none, some, List, [], ◌∷◌,
  if◌then◌else◌,
}
use ember_csi.Base.Dict.{Dict}
use ember_csi.Rpc.{
  not_found, already_exists, failed_precondition, aborted, value_error, attribute_error, Exec, pure,
  raise, abort_with, abort_if, ◌>>=◌, ◌>>◌,
}
use ember_csi.Cinder.{Volume, Connection, KeyValue, Cinder}
use ember_csi.Csi.{PublishRequest, UnpublishRequest, Servicer}
use ember_csi.Identity.Lookup.{get_vol, or_absent}

-- `common.NodeInfo`
pub record NodeInfo : Type 0 where
  pub id : String
  pub connector_dict : Dict String

abbrev decoded : {W : Type 0} → String → Option (Dict String) → Exec W (Option NodeInfo)
decoded id none = raise value_error
decoded id (some connector) = pure (some (record { id = id; connector_dict = connector }))

-- `json_loads` is Python's `json.loads`, at the dicts that `NodeInfo.set` stores.
module _ {W : Type 0} (cl : Cinder W) (json_loads : String → Option (Dict String))
    (s : Servicer) where
  unfoldable pub first_value : String → List KeyValue → Exec W (Option NodeInfo)
  first_value id [] = pure none
  first_value id (kv ∷ _) = decoded id (json_loads kv.value)

  -- `NodeInfo.get(node_id)`
  unfoldable pub get_node : String → Exec W (Option NodeInfo)
  get_node id = do kvs ← cl.get_key_values id; first_value id kvs

  unfoldable pub node_or_absent : String → Option NodeInfo → Exec W (Option NodeInfo)
  node_or_absent id none = abort_with not_found ("Node " <> (id <> " does not exist"))
  node_or_absent id (some node) = pure (some node)

  -- The node of the request, or `None` where the request names none.
  unfoldable pub requested_node : String → Exec W (Option NodeInfo)
  requested_node id =
      if truthy id then (get_node id >>= λ node. node_or_absent id node) else pure none

  unfoldable pub get_vol_node : String → String → Exec W (Volume × Option NodeInfo)
  get_vol_node volume_id node_id = do
    node ← requested_node node_id
    found ← get_vol cl s (some volume_id) none
    vol ←
        or_absent found "status"
          (abort_with not_found ("Volume " <> (volume_id <> " does not exist")))
    abort_if (not (elem vol.status ("in-use" ∷ "available" ∷ []))) aborted
        ("Operation pending for volume " <> vol.status)
    pure (vol, node)

  abbrev pub mode_of : Bool → String
  mode_of readonly = if readonly then "ro" else "rw"

  -- The loop over the connections of a volume in use.
  unfoldable pub check_connections : PublishRequest → List Connection → Exec W (Unit {0})
  check_connections r [] = pure tt
  check_connections r (conn ∷ conns) = do
    abort_if (not (conn.attached_host == r.node_id)) failed_precondition
        "Volume published to another node"
    abort_if (not (conn.attach_mode == mode_of r.readonly)) already_exists
        "Volume published with another readonly mode"
    check_connections r conns

  -- `None` has no `connector_dict`.
  unfoldable pub attach_to : Volume → Option NodeInfo → Bool → Exec W (Unit {0})
  attach_to vol none readonly = raise (attribute_error "connector_dict")
  attach_to vol (some node) readonly = do
    conn ← cl.connect vol node.connector_dict node.id
    if readonly then cl.save_connection (record conn { attach_mode = "ro" }) else pure tt

  -- The body of `ControllerPublishVolume`; its response has no content.
  unfoldable pub publish_body : PublishRequest → Exec W (Unit {0})
  publish_body r = do
    (vol, node) ← get_vol_node r.volume_id r.node_id
    if vol.status == "in-use"
        then (cl.connections vol >>= check_connections r)
        else attach_to vol node r.readonly

  abbrev is_target : Option NodeInfo → Connection → Bool
  is_target none conn = true
  is_target (some node) conn = conn.attached_host == node.id

  -- The loop over the connections.
  unfoldable pub disconnect_all : Option NodeInfo → List Connection → Exec W (Unit {0})
  disconnect_all target [] = pure tt
  disconnect_all target (conn ∷ conns) =
      elim (is_target target conn) [ true ↦ cl.disconnect conn | false ↦ pure tt ]
      >> disconnect_all target conns

  -- The body of `ControllerUnpublishVolume`.
  unfoldable pub unpublish_body : UnpublishRequest → Exec W (Unit {0})
  unpublish_body r = do
    (vol, node) ← get_vol_node r.volume_id r.node_id
    conns ← cl.connections vol
    disconnect_all node conns
