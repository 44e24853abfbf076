-- ===== src/Config/Topologies.antt =====
-- `Config._set_topology_config` of ember_csi/config.py.
pub mod Usable
use ember_csi.Base.{
  ℕ, String, ◌==◌, ◌||◌, truthy, Bool, true, false, not, Option, none, some, List, [], ◌∷◌,
  if◌then◌else◌,
}
use ember_csi.Rpc.{exited, Fault, Outcome, ok, err}

-- `json.JSONDecoder` and what the method asks of a value that it has decoded.
pub record Decoder : Type 1 where
  pub Json : Type 0
  pub decode : String → Option Json
  pub as_list : Json → Option (List Json)
  pub is_true : Json → Bool

-- `constants.ERROR_TOPOLOGY_UNSUPPORTED`, `ERROR_TOPOLOGY_JSON`, `ERROR_TOPOLOGY_MISSING`, `ERROR_TOPOLOGY_LIST`
abbrev pub error_topology_unsupported : ℕ
error_topology_unsupported = 7

abbrev pub error_topology_json : ℕ
error_topology_json = 8

abbrev pub error_topology_missing : ℕ
error_topology_missing = 9

abbrev pub error_topology_list : ℕ
error_topology_list = 10

module _ (d : Decoder) where
  open d use {Json, decode, as_list, is_true}

  -- `TOPOLOGIES` and `NODE_TOPOLOGY`. A value that is still the empty text of the environment is
  -- `none`; no topologies are the empty list.
  pub record Topologies : Type 0 where
    pub topologies : List (Option Json)
    pub node_topology : Option Json

  abbrev pub each_some : List Json → List (Option Json)
  each_some [] = []
  each_some (j ∷ js) = some j ∷ each_some js

  abbrev pub listed : Option (List Json) → Outcome (List (Option Json))
  listed none = err (exited error_topology_list)
  listed (some js) = ok (each_some js)

  abbrev pub decoded : Option Json → Outcome (List (Option Json))
  decoded none = err (exited error_topology_json)
  decoded (some j) = listed (as_list j)

  unfoldable pub decode_topologies : String → Outcome (List (Option Json))
  decode_topologies raw = if truthy raw then decoded (decode raw) else ok []

  abbrev decoded_node : Option Json → Outcome (Option Json)
  decoded_node none = err (exited error_topology_json)
  decoded_node (some j) = ok (some j)

  unfoldable pub decode_node : String → Outcome (Option Json)
  decode_node raw = if truthy raw then decoded_node (decode raw) else ok none

  -- `if self.NODE_TOPOLOGY`, `if self.TOPOLOGIES`
  abbrev pub is_set : Option Json → Bool
  is_set none = false
  is_set (some j) = is_true j

  abbrev pub has_any : List (Option Json) → Bool
  has_any [] = false
  has_any (_ ∷ _) = true

  unfoldable pub complete_node : Topologies → Outcome Topologies
  complete_node t =
      if has_any t.topologies
      then if is_set t.node_topology then ok t else err (exited error_topology_missing)
      else ok t

  unfoldable pub complete_controller : Topologies → Outcome Topologies
  complete_controller t =
      if is_set t.node_topology
      then if has_any t.topologies then ok t else err (exited error_topology_missing)
      else ok t

  unfoldable pub complete_all : List (Option Json) → Option Json → Outcome Topologies
  complete_all [] n = ok (record { topologies = n ∷ []; node_topology = n })
  complete_all (t ∷ ts) n =
      ok (record { topologies = t ∷ ts; node_topology = if is_set n then n else t })

  unfoldable pub complete_by_mode : String → Topologies → Outcome Topologies
  complete_by_mode mode t =
      if mode == "node"
      then complete_node t
      else if mode == "controller"
      then complete_controller t
      else complete_all t.topologies t.node_topology

  unfoldable pub complete :
      String → Outcome (List (Option Json)) → Outcome (Option Json) → Outcome Topologies
  complete mode (err e) n = err e
  complete mode (ok ts) (err e) = err e
  complete mode (ok ts) (ok n) =
      complete_by_mode mode (record { topologies = ts; node_topology = n })

  -- `exit(n)` is the fault `exited n`.
  unfoldable pub set_topology_config : String → String → String → String → Outcome Topologies
  set_topology_config csi_spec mode raw raw_node =
      if truthy raw || truthy raw_node
      then if csi_spec == "0.2.0"
        then err (exited error_topology_unsupported)
        else complete mode (decode_topologies raw) (decode_node raw_node)
      else ok (record { topologies = []; node_topology = none })
