-- ===== src/Examples/Plugin.antt =====
-- The constructors of the servicers at concrete values.
use ember_csi.Base.{ℕ, suc, ◌≡◌, refl, String, some, [], ◌∷◌}
use ember_csi.Rpc.{Outcome, ok, err, Exec}
use ember_csi.Csi.{v1_0_0}
use ember_csi.Controller.Publish.{NodeInfo}
use ember_csi.Plugin.{
  accessibility_constraints, controller_service, BackendInfo, Surroundings, fresh, identity_init,
  topology_init, add_constraints, ctrl_capabilities, node_capabilities, controller_init,
  node_base_init, node_init, all_init, Plugin, get_plugin_capabilities, controller_get_capabilities,
  node_get_capabilities,
}
use ember_csi.Plugin.Answers.{all_init_capabilities}

abbrev x : Surroundings
x = record {
  version = v1_0_0;
  name = "ember-csi.io";
  mode = "all";
  fqdn = "host";
  class_name = "all";
  persistence_name = "CRDPersistence";
  cinder_version = "13.1.0";
  cinderlib_version = "0.3.0";
  vendor_version = "0.9";
  root_helper = "";
  topologies = (("zone", "a") ∷ []) ∷ [];
  node_topology = some (("zone", "a") ∷ []);
}

-- The world counts the calls.
abbrev setup : Exec ℕ (Unit {0})
setup n = (ok tt, suc n)

abbrev make_backend : Exec ℕ BackendInfo
make_backend n = (ok (record { version = "3.0"; driver = "LVM"; supported = "True" }), suc n)

abbrev set_info : String → Exec ℕ NodeInfo
set_info id n = (ok (record { id = id; connector_dict = [] }), suc n)

abbrev or_fresh : Outcome Plugin → Plugin
or_fresh (ok p) = p
or_fresh (err e) = fresh

abbrev built : Plugin
unfolding all_init controller_init node_init node_base_init identity_init topology_init
    add_constraints
built = or_fresh (all_init x setup make_backend set_info "node" fresh 0).0

built_capabilities :
    (get_plugin_capabilities built ≡ accessibility_constraints ∷ controller_service ∷ [])
    × (controller_get_capabilities built ≡ ctrl_capabilities v1_0_0)
    × (node_get_capabilities built ≡ node_capabilities v1_0_0)
unfolding all_init controller_init node_init node_base_init identity_init topology_init
    add_constraints
built_capabilities = all_init_capabilities x setup make_backend set_info "node" built 0 3 refl
