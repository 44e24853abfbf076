-- ===== src/Plugin.antt =====
-- The constructors of the servicers: `__init__` of `IdentityBase`, `ControllerBase` and `NodeBase` of
-- ember_csi/base.py and of the classes `Controller`, `Node` and `All` of ember_csi/v0_2_0/csi.py,
-- ember_csi/v0_3_0/csi.py and ember_csi/v1_0_0/csi.py, with the answers that are built there.
pub mod Answers
use ember_csi.Base.{
  String, ◌<>◌, truthy, Bool, true, false, not, Option, none, some, List, [], ◌∷◌, ◌++◌,
  if◌then◌else◌,
}
use ember_csi.Base.Dict.{Dict}
use ember_csi.Rpc.{Exec, pure, ◌>>=◌, ◌>>◌}
use ember_csi.Cinder.{KeyValue}
use ember_csi.Csi.{Topology, Level, SpecVersion, v0_2_0, v0_3_0, v1_0_0}
use ember_csi.Controller.Publish.{NodeInfo}
use ember_csi.Topology.Hierarchy.{init_topology}

-- The members of `ServiceType`. Spec v1.0.0 calls the second one VOLUME_ACCESSIBILITY_CONSTRAINTS.
pub data ServiceType : Type 0 where
  controller_service accessibility_constraints : ServiceType

pub data CtrlCapability : Type 0 where
  create_delete_volume publish_unpublish_volume list_volumes get_capacity : CtrlCapability
  create_delete_snapshot list_snapshots clone_volume publish_readonly : CtrlCapability

pub data NodeCapability : Type 0 where
  stage_unstage_volume get_volume_stats : NodeCapability

-- `Controller.CTRL_CAPABILITIES` and `Node.NODE_CAPABILITIES`
unfoldable pub ctrl_capabilities : SpecVersion → List CtrlCapability
ctrl_capabilities v0_2_0 =
    create_delete_volume ∷ publish_unpublish_volume ∷ list_volumes ∷ get_capacity ∷ []
ctrl_capabilities v0_3_0 =
    create_delete_volume ∷ publish_unpublish_volume ∷ list_volumes ∷ get_capacity
    ∷ create_delete_snapshot ∷ list_snapshots ∷ []
ctrl_capabilities v1_0_0 =
    create_delete_volume ∷ publish_unpublish_volume ∷ list_volumes ∷ get_capacity
    ∷ create_delete_snapshot ∷ list_snapshots ∷ clone_volume ∷ publish_readonly ∷ []

unfoldable pub node_capabilities : SpecVersion → List NodeCapability
node_capabilities v1_0_0 = stage_unstage_volume ∷ get_volume_stats ∷ []
node_capabilities _ = stage_unstage_volume ∷ []

-- What `self.backend` says of itself.
pub record BackendInfo : Type 0 where
  pub version : String
  pub driver : String
  pub supported : String

-- `CONF` and `constants`, the names of the classes (`class_name` in lower case) and of the host. No
-- node topology is `none`.
pub record Surroundings : Type 0 where
  pub version : SpecVersion
  pub name : String
  pub mode : String
  pub fqdn : String
  pub class_name : String
  pub persistence_name : String
  pub cinder_version : String
  pub cinderlib_version : String
  pub vendor_version : String
  pub root_helper : String
  pub topologies : List Topology
  pub node_topology : Option Topology

-- `InfoResp`
pub record PluginInfo : Type 0 where
  pub plugin_name : String
  pub plugin_version : String
  pub manifest : Dict String

-- `NodeInfoResp`
pub record NodeAnswer : Type 0 where
  pub node_id : String
  pub accessible_topology : Option Topology

-- The attributes of the servicer. `capabilities` is the list that all classes share.
pub record Plugin : Type 0 where
  pub capabilities : List ServiceType
  pub backend : Option BackendInfo
  pub info : Option PluginInfo
  pub capabilities_resp : List ServiceType
  pub sudo_helper : String
  pub probe_kv : Option KeyValue
  pub topology_hiera : Option Level
  pub grpc_topologies : List Topology
  pub ctrl_capabilities_resp : List CtrlCapability
  pub node_capabilities_resp : List NodeCapability
  pub node_info : Option NodeInfo
  pub node_topology : Option Topology
  pub id_resp : Option String
  pub node_info_resp : Option NodeAnswer

abbrev pub fresh : Plugin
fresh = record {
  capabilities = [];
  backend = none;
  info = none;
  capabilities_resp = [];
  sudo_helper = "";
  probe_kv = none;
  topology_hiera = none;
  grpc_topologies = [];
  ctrl_capabilities_resp = [];
  node_capabilities_resp = [];
  node_info = none;
  node_topology = none;
  id_resp = none;
  node_info_resp = none;
}

-- `topo_capab in self.PLUGIN_CAPABILITIES`, or else it is appended.
abbrev has_constraints : List ServiceType → Bool
has_constraints [] = false
has_constraints (controller_service ∷ cs) = has_constraints cs
has_constraints (accessibility_constraints ∷ cs) = true

unfoldable pub add_constraints : Plugin → Plugin
add_constraints p =
    if has_constraints p.capabilities
    then p
    else record p { capabilities = p.capabilities ++ accessibility_constraints ∷ [] }

module _ (x : Surroundings) where
  abbrev with_driver : Option BackendInfo → Dict String
  with_driver none = []
  with_driver (some b) =
      ("cinder-driver-version", b.version)
      ∷ ("cinder-driver", b.driver)
      ∷ ("cinder-driver-supported", b.supported)
      ∷ []

  unfoldable pub manifest_of : Option BackendInfo → Dict String
  manifest_of backend =
      ("cinder-version", x.cinder_version)
      ∷ ("cinderlib-version", x.cinderlib_version)
      ∷ ("persistence", x.persistence_name)
      ∷ ("mode", x.class_name)
      ∷ with_driver backend

  abbrev first_identity_init : Plugin → Plugin
  first_identity_init p =
      let caps = p.capabilities ++ controller_service ∷ [] in
      record p {
        capabilities = caps;
        capabilities_resp = caps;
        sudo_helper = if truthy x.root_helper then x.root_helper else "sudo";
        info = some (record {
          plugin_name = x.name;
          plugin_version = x.vendor_version;
          manifest = manifest_of p.backend;
        });
        probe_kv = some (record {
          key = x.name <> ("." <> (x.mode <> ("." <> (x.fqdn <> ".probe"))));
          value = "0";
        });
      }

  -- `IdentityBase.__init__`, which does nothing the second time; `manifest` is set with `INFO`.
  unfoldable pub identity_init : Plugin → Plugin
  identity_init p = elim p.info [ none ↦ first_identity_init p | some i ↦ p ]

  abbrev is_given {ℓ} : {A : Type ℓ} → List A → Bool
  is_given [] = false
  is_given (_ ∷ _) = true

  -- `TopologyBase._init_topology`
  unfoldable pub topology_init : Plugin → Plugin
  topology_init p =
      if is_given x.topologies
      then record (add_constraints p) {
        topology_hiera = some (init_topology x.topologies);
        grpc_topologies = x.topologies;
      }
      else p

  abbrev pub controller_topology : SpecVersion → Plugin → Plugin
  controller_topology v0_2_0 p = p
  controller_topology v0_3_0 p = topology_init p
  controller_topology v1_0_0 p = topology_init p

  -- What `Node.__init__` does before the base class.
  abbrev pub node_before : SpecVersion → Option Topology → String → Plugin → Plugin
  node_before v0_2_0 t id p = record p { id_resp = some id }
  node_before v0_3_0 none id p = record p { id_resp = some id }
  node_before v0_3_0 (some t) id p = record (add_constraints p) {
    id_resp = some id;
    node_topology = some t;
  }
  node_before v1_0_0 none id p = p
  node_before v1_0_0 (some t) id p = record (add_constraints p) { node_topology = some t }

  abbrev pub node_after : SpecVersion → String → Plugin → Plugin
  node_after v0_2_0 id p = p
  node_after _ id p = record p {
    node_info_resp = some (record { node_id = id; accessible_topology = p.node_topology });
  }

  -- `setup` is `cinderlib.setup`, `make_backend` is `cinderlib.Backend(**backend_config)`, and
  -- `set_info` is `NodeInfo.set`.
  module _ {W : Type 0} (setup : Exec W (Unit {0})) (make_backend : Exec W BackendInfo)
      (set_info : String → Exec W NodeInfo) where
    -- `Controller.__init__`
    unfoldable pub controller_init : Plugin → Exec W Plugin
    controller_init p = do
      setup
      b ← make_backend
      pure (record (identity_init (record (controller_topology x.version p) { backend = some b })) {
        ctrl_capabilities_resp = ctrl_capabilities x.version;
      })

    -- `NodeBase.__init__`; only a node by itself is given the configuration of the persistence.
    unfoldable pub node_base_init : Bool → String → Plugin → Exec W Plugin
    node_base_init alone node_id p = do
      if alone then setup else pure tt
      info ← set_info node_id
      let q = if alone then identity_init p else p
      pure
          (record q { node_info = some info; node_capabilities_resp = node_capabilities x.version })

    -- `Node.__init__`
    unfoldable pub node_init : Bool → String → Plugin → Exec W Plugin
    node_init alone node_id p = do
      q ← node_base_init alone node_id (node_before x.version x.node_topology node_id p)
      pure (node_after x.version node_id q)

    -- `All.__init__`
    unfoldable pub all_init : String → Plugin → Exec W Plugin
    all_init node_id p = controller_init p >>= λ q. node_init false node_id q

-- `GetPluginInfo`, `GetPluginCapabilities`, `ControllerGetCapabilities`, `NodeGetCapabilities`,
-- `NodeGetId` and `NodeGetInfo` hand out what the constructors have built.
abbrev pub get_plugin_info : Plugin → Option PluginInfo
get_plugin_info p = p.info

abbrev pub get_plugin_capabilities : Plugin → List ServiceType
get_plugin_capabilities p = p.capabilities_resp

abbrev pub controller_get_capabilities : Plugin → List CtrlCapability
controller_get_capabilities p = p.ctrl_capabilities_resp

abbrev pub node_get_capabilities : Plugin → List NodeCapability
node_get_capabilities p = p.node_capabilities_resp

abbrev pub node_get_id : Plugin → Option String
node_get_id p = p.id_resp

abbrev pub node_get_info : Plugin → Option NodeAnswer
node_get_info p = p.node_info_resp
