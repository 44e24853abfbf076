-- ===== src/Config/Topologies/Usable.antt =====
-- What `_set_topology_config` of ember_csi/config.py leaves, by the mode.
use ember_csi.Base.{
  ◌≡◌, refl, inl, inr, String, ◌==◌, ◌||◌, ◌&&◌, truthy, Bool, true, false, not, Bool-cases, Option,
  none, some, List, [], ◌∷◌, arith, if◌then◌else◌,
}
use ember_csi.Rpc.{Outcome, ok, err}
use ember_csi.Config.Topologies.{
  Decoder, Topologies, is_set, has_any, decode_topologies, decode_node, complete_node,
  complete_controller, complete_all, complete_by_mode, complete, each_some, listed, decoded,
  set_topology_config,
}

module _ (d : Decoder) where
  -- No entry is still a text of the environment.
  abbrev pub all_decoded : List (Option d.Json) → Bool
  all_decoded [] = true
  all_decoded (none ∷ ts) = false
  all_decoded (some j ∷ ts) = all_decoded ts

  abbrev pub is_decoded : Option d.Json → Bool
  is_decoded none = false
  is_decoded (some j) = true

  -- A node with topologies has a topology of its own, and a controller with a node's topology has topologies.
  -- A server of both has topologies, and they are decoded if there was a node's topology to decode.
  abbrev pub is_complete : String → String → Topologies d → Bool
  is_complete mode raw_node t =
      if mode == "node"
      then not (has_any d t.topologies) || is_set d t.node_topology
      else if mode == "controller"
      then not (is_set d t.node_topology) || has_any d t.topologies
      else has_any d t.topologies && (all_decoded t.topologies || not (truthy raw_node))

  each_some_decoded : (js : List d.Json) → all_decoded (each_some d js) ≡ true
  each_some_decoded [] = refl
  each_some_decoded (j ∷ js) = each_some_decoded js

  listed_decoded :
      (o : Option (List d.Json)) (ts : List (Option d.Json))
      → listed d o ≡ ok ts
      → all_decoded ts ≡ true
  listed_decoded none ts e = absurd (cc e)
  listed_decoded (some js) ts e =
      let same : each_some d js ≡ ts = ground arith in rw (← same) (each_some_decoded js)

  decode_topologies_decoded :
      (raw : String) (ts : List (Option d.Json))
      → decode_topologies d raw ≡ ok ts
      → all_decoded ts ≡ true
  unfolding decode_topologies
  decode_topologies_decoded raw ts e = go (truthy raw) (d.decode raw) e
    where
      go :
          (b : Bool) (o : Option d.Json)
          → (if b then decoded d o else ok []) ≡ ok ts
          → all_decoded ts ≡ true
      go true none e = absurd (cc e)
      go true (some j) e = listed_decoded (d.as_list j) ts e
      go false o e = let same : [] ≡ ts = ground arith in rw (← same) refl

  decode_node_decoded :
      (raw_node : String) (n : Option d.Json)
      → decode_node d raw_node ≡ ok n
      → is_decoded n || not (truthy raw_node) ≡ true
  unfolding decode_node
  decode_node_decoded raw_node n e = ground arith

  complete_by_mode_complete :
      (mode raw_node : String) (ts : List (Option d.Json)) (n : Option d.Json) (u : Topologies d)
      → all_decoded ts ≡ true
      → is_decoded n || not (truthy raw_node) ≡ true
      → complete_by_mode d mode (record { topologies = ts; node_topology = n }) ≡ ok u
      → is_complete mode raw_node u ≡ true
  unfolding complete_by_mode complete_node complete_controller complete_all
  complete_by_mode_complete mode raw_node [] n u all node e = ground arith
  complete_by_mode_complete mode raw_node (t ∷ ts) n u all node e = ground arith

  complete_lem :
      (mode raw raw_node : String) (ts : Outcome (List (Option d.Json)))
      (n : Outcome (Option d.Json)) (u : Topologies d)
      → decode_topologies d raw ≡ ts
      → decode_node d raw_node ≡ n
      → complete d mode ts n ≡ ok u
      → is_complete mode raw_node u ≡ true
  unfolding complete
  complete_lem mode raw raw_node (err x) n u ets en e = absurd (cc e)
  complete_lem mode raw raw_node (ok ts) (err x) u ets en e = absurd (cc e)
  complete_lem mode raw raw_node (ok ts) (ok n) u ets en e =
      complete_by_mode_complete mode raw_node ts n u (decode_topologies_decoded raw ts ets)
        (decode_node_decoded raw_node n en) e

  -- Where a topology is configured and the configuration is accepted, the specification is not v0.2.0, and what
  -- the mode needs of the topologies is there.
  pub set_topology_config_complete :
      (csi_spec mode raw raw_node : String) (u : Topologies d)
      → (truthy raw || truthy raw_node) ≡ true
      → set_topology_config d csi_spec mode raw raw_node ≡ ok u
      → ((csi_spec == "0.2.0") ≡ false) × (is_complete mode raw_node u ≡ true)
  unfolding set_topology_config
  set_topology_config_complete csi_spec mode raw raw_node u given accepted =
      elim (Bool-cases (csi_spec == "0.2.0")) [
        | inl old ↦ absurd (cc (rw (given, old) at accepted))
        | inr new ↦ (
          new,
          complete_lem mode raw raw_node (decode_topologies d raw) (decode_node d raw_node) u refl
              refl (rw (given, new) at accepted),
        )
      ]
