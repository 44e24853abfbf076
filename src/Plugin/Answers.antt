-- ===== src/Plugin/Answers.antt =====
-- What the constructed servicers answer.
use ember_csi.Base.{
  ◌≡◌, refl, ap, sym, ◌∙◌, String, Bool, true, false, Option, none, some, List, [], ◌∷◌, arith,
  if◌then◌else◌,
}
use ember_csi.Rpc.{ok, Exec, pure}
use ember_csi.Rpc.Inversion.{bind-eq-ok}
use ember_csi.Csi.{Topology, SpecVersion, v0_2_0, v0_3_0, v1_0_0}
use ember_csi.Controller.Publish.{NodeInfo}
use ember_csi.Plugin.{
  ServiceType, controller_service, accessibility_constraints, BackendInfo, Surroundings, Plugin,
  fresh, add_constraints, identity_init, topology_init, controller_init, node_base_init, node_init,
  all_init, get_plugin_capabilities, controller_get_capabilities, node_get_capabilities,
  ctrl_capabilities, node_capabilities, controller_topology, node_before, node_after,
}

-- The service types that a plugin of the version has, by whether topologies are configured.
abbrev pub expected : SpecVersion → Bool → List ServiceType
expected v0_2_0 b = controller_service ∷ []
expected v0_3_0 b =
    if b then accessibility_constraints ∷ controller_service ∷ [] else controller_service ∷ []
expected v1_0_0 b =
    if b then accessibility_constraints ∷ controller_service ∷ [] else controller_service ∷ []

abbrev pub is_some {ℓ} : {A : Type ℓ} → Option A → Bool
is_some none = false
is_some (some a) = true

abbrev pub nonempty_list {ℓ} : {A : Type ℓ} → List A → Bool
nonempty_list [] = false
nonempty_list (_ ∷ _) = true

-- What the constructor of the base class reports once the topologies are set up.
first_report :
    (x : Surroundings) (v : SpecVersion) (b : Option BackendInfo)
    → (identity_init x (record (controller_topology x v fresh) { backend = b })).capabilities_resp
      ≡ expected v (nonempty_list x.topologies)
unfolding identity_init topology_init add_constraints
first_report x v0_2_0 b = refl
first_report x v0_3_0 b = ground arith
first_report x v1_0_0 b = ground arith

-- The attributes that the constructor of the node's class leaves alone.
after_keeps :
    (x : Surroundings) (v : SpecVersion) (id : String) (p : Plugin)
    → ((node_after x v id p).capabilities_resp ≡ p.capabilities_resp)
      × ((node_after x v id p).ctrl_capabilities_resp ≡ p.ctrl_capabilities_resp)
      × ((node_after x v id p).node_capabilities_resp ≡ p.node_capabilities_resp)
after_keeps x v0_2_0 id p = (refl, refl, refl)
after_keeps x v0_3_0 id p = (refl, refl, refl)
after_keeps x v1_0_0 id p = (refl, refl, refl)

before_keeps :
    (x : Surroundings) (v : SpecVersion) (t : Option Topology) (id : String) (p : Plugin)
    → ((node_before x v t id p).capabilities_resp ≡ p.capabilities_resp)
      × ((node_before x v t id p).ctrl_capabilities_resp ≡ p.ctrl_capabilities_resp)
unfolding add_constraints
before_keeps x v0_2_0 t id p = (refl, refl)
before_keeps x v0_3_0 none id p = (refl, refl)
before_keeps x v0_3_0 (some t) id p = ground arith
before_keeps x v1_0_0 none id p = (refl, refl)
before_keeps x v1_0_0 (some t) id p = ground arith

ok_same : {W A : Type 0} (a b : A) (w u : W) → pure a w ≡ (ok b, u) → a ≡ b
ok_same a b w u e = ground arith

module _ (x : Surroundings) {W : Type 0} (setup : Exec W (Unit {0}))
    (make_backend : Exec W BackendInfo) (set_info : String → Exec W NodeInfo) where
  controller_report :
      (p : Plugin) (w u : W)
      → controller_init x setup make_backend set_info fresh w ≡ (ok p, u)
      → (p.capabilities_resp ≡ expected x.version (nonempty_list x.topologies))
        × (p.ctrl_capabilities_resp ≡ ctrl_capabilities x.version)
  unfolding controller_init
  controller_report p w u h =
      let (t, w1, e1, k1) = bind-eq-ok setup _ w h in
      let (b, w2, e2, k2) = bind-eq-ok make_backend _ w1 k1 in
      let same = ok_same _ p w2 u k2 in
      (
        ap (λ (q : Plugin). q.capabilities_resp) (sym same) ∙ first_report x x.version (some b),
        ap (λ (q : Plugin). q.ctrl_capabilities_resp) (sym same),
      )

  -- What the constructor of the base class of nodes leaves after a controller's.
  base_report :
      (node_id : String) (p q : Plugin) (w u : W)
      → node_base_init x setup make_backend set_info false node_id p w ≡ (ok q, u)
      → (q.capabilities_resp ≡ p.capabilities_resp)
        × (q.ctrl_capabilities_resp ≡ p.ctrl_capabilities_resp)
        × (q.node_capabilities_resp ≡ node_capabilities x.version)
  unfolding node_base_init
  base_report node_id p q w u h = ground arith

  node_report :
      (node_id : String) (p q : Plugin) (w u : W)
      → node_init x setup make_backend set_info false node_id p w ≡ (ok q, u)
      → (q.capabilities_resp ≡ p.capabilities_resp)
        × (q.ctrl_capabilities_resp ≡ p.ctrl_capabilities_resp)
        × (q.node_capabilities_resp ≡ node_capabilities x.version)
  unfolding node_init
  node_report node_id p q w u h =
      let (r, w1, e1, k1) =
        bind-eq-ok
          (node_base_init x setup make_backend set_info false node_id
            (node_before x x.version x.node_topology node_id p))
          _ w h in
      let same = ok_same _ q w1 u k1 in
      let (a, b, c) = after_keeps x x.version node_id r in
      let (d, e) = before_keeps x x.version x.node_topology node_id p in
      let (f, g, i) = base_report node_id _ r w w1 e1 in
      (
        ap (λ (z : Plugin). z.capabilities_resp) (sym same) ∙ a ∙ f ∙ d,
        ap (λ (z : Plugin). z.ctrl_capabilities_resp) (sym same) ∙ b ∙ g ∙ e,
        ap (λ (z : Plugin). z.node_capabilities_resp) (sym same) ∙ c ∙ i,
      )

  -- A plugin that is constructed to run as all reports the capabilities of its version for the controller and for the
  -- node, the controller service once, and before it the constraints of accessibility exactly where
  -- the version has them and topologies are configured.
  pub all_init_capabilities :
      (node_id : String) (q : Plugin) (w u : W)
      → all_init x setup make_backend set_info node_id fresh w ≡ (ok q, u)
      → (get_plugin_capabilities q ≡ expected x.version (nonempty_list x.topologies))
        × (controller_get_capabilities q ≡ ctrl_capabilities x.version)
        × (node_get_capabilities q ≡ node_capabilities x.version)
  unfolding all_init
  all_init_capabilities node_id q w u h =
      let (p, w1, e1, k1) =
        bind-eq-ok (controller_init x setup make_backend set_info fresh) _ w h in
      let (a, b, c) = node_report node_id p q w1 u k1 in
      let (d, e) = controller_report p w w1 e1 in (a ∙ d, b ∙ e, c)
