-- ===== src/Startup.antt =====
-- The commands ember_csi/ember_csi.py and ember_csi/liveness.py: the server and its probe from outside. The
-- process and gRPC are not part of the repository, and are parameters.
pub mod Healthy
use ember_csi.Base.{
  ℕ, zero, suc, eqb, String, join, Bool, true, false, Option, none, some, List, [], ◌∷◌, ◌++◌,
  codes, if◌then◌else◌,
}
use ember_csi.Base.Case.{title}
use ember_csi.Base.Dict.{Dict}
use ember_csi.Base.Split.{split_by}
use ember_csi.Rpc.{attribute_error, exited, diverged, Exec, pure, raise, ◌>>=◌, ◌>>◌}
use ember_csi.Csi.{SpecVersion, v0_2_0, v0_3_0, v1_0_0}
use ember_csi.Config.Backend.{Setting}
use ember_csi.Config.Names.{Text}
use ember_csi.Config.Reading.{Config}
use ember_csi.Config.Topologies.{Decoder}
use ember_csi.Config.Validation.{Validated, spec_text}

-- `'ember_csi.v%s.csi' % CONF.CSI_SPEC.replace('.', '_')`, and the prefix with '_pb2'.
unfoldable pub module_name : SpecVersion → String
module_name v =
    join "" ("ember_csi.v" ∷ join "_" (split_by (λ c. eqb c b'.') "" (spec_text v)) ∷ ".csi" ∷ [])

unfoldable pub pb2_prefix : SpecVersion → String
unfolding module_name
pb2_prefix v = join "" (module_name v ∷ "_pb2" ∷ [])

pub data OptionValue : Type 0 where
  flag : Bool → OptionValue
  number : ℕ → OptionValue

unfoldable pub server_options : Bool → Option (Dict OptionValue)
server_options true = some (
    ("grpc.keepalive_permit_without_calls", flag true)
    ∷ ("grpc.http2.max_pings_without_data", number 0)
    ∷ ("grpc.http2.min_time_between_pings_ms", number 1000)
    ∷ ("grpc.http2.min_ping_interval_without_data_ms", number 1000)
    ∷ ("grpc.http2.max_ping_strikes", number 0)
    ∷ [])
server_options false = none

-- The arguments of the servicer's class besides the server.
pub record Arguments (J : Type 0) : Type 0 where
  pub persistence_config : Dict (Setting J)
  pub backend_config : Dict (Setting J)
  pub ember_config : Dict (Setting J)
  pub storage_nw_ip : String
  pub node_id : Text

-- `sleep` says whether `KeyboardInterrupt` ended it, and `add_insecure_port` is 0 where it fails.
pub record Host (W H P J : Type 0) : Type 0 where
  pub new_server : Setting J → Option (Dict OptionValue) → Exec W H
  pub grpc_eventlet : H → Exec W (Unit {0})
  pub import_class : String → String → Exec W (H → Arguments J → Exec W P)
  pub log_used_parameters : P → Exec W (Unit {0})
  pub add_insecure_port : H → String → Exec W ℕ
  pub start : H → Exec W (Unit {0})
  pub sleep : ℕ → Exec W Bool
  pub stop : H → ℕ → Exec W (Unit {0})

-- `constants.ERROR_BIND_PORT` and `constants.ONE_DAY_IN_SECONDS`
abbrev pub error_bind_port : ℕ
error_bind_port = 1

abbrev pub one_day_in_seconds : ℕ
one_day_in_seconds = 86400

module _ {W H P J : Type 0} (d : Decoder) (host : Host W H P J) (is_true : Setting J → Bool)
    (validate : Config J → Exec W (Validated J d)) where
  -- The loop of `main`, for so many days at most.
  unfoldable pub serve : ℕ → H → Exec W (Unit {0})
  serve zero server = raise diverged
  serve (suc days) server = host.sleep one_day_in_seconds >>= λ interrupted. elim interrupted [
    | true ↦ host.stop server 0
    | false ↦ serve days server
  ]

  -- `validate` is `Config.validate`, which the model has in Config/Validation.antt.
  unfoldable pub main : ℕ → Config J → Exec W (Unit {0})
  unfolding serve server_options module_name
  main days c = do
    v ← validate c
    server_class ← host.import_class (module_name v.csi_spec) (title c.mode)
    server ← host.new_server c.workers (server_options (is_true c.slow_operations))
    host.grpc_eventlet server
    csi_plugin ← server_class server (record {
      persistence_config = c.persistence_config;
      backend_config = v.backend_config;
      ember_config = c.ember_config;
      storage_nw_ip = c.storage_nw_ip;
      node_id = v.name ++ b'.' ∷ codes c.node_id;
    })
    host.log_used_parameters csi_plugin
    port ← host.add_insecure_port server c.endpoint
    if eqb port 0 then raise (exited error_bind_port) else pure tt
    host.start server
    serve days server

-- `ProbeRespOK` of the versions; the message of v0.2.0 has no field `ready`.
unfoldable pub probe_resp_ok : SpecVersion → Option Bool
probe_resp_ok v0_2_0 = none
probe_resp_ok v0_3_0 = some true
probe_resp_ok v1_0_0 = some true

-- `response.ready.value`
abbrev pub check_ready : {W : Type 0} → Option Bool → Exec W (Unit {0})
check_ready none = raise (attribute_error "ready")
check_ready (some ready) = if ready then pure tt else raise (exited 1)

-- The end of the command, by the response; no response is `grpc.RpcError`.
unfoldable pub report_probe : {W : Type 0} → SpecVersion → Option (Option Bool) → Exec W (Unit {0})
report_probe v none = raise (exited 2)
report_probe v0_2_0 (some ready) = pure tt
report_probe v0_3_0 (some ready) = check_ready ready
report_probe v1_0_0 (some ready) = check_ready ready

module _ {W J : Type 0} (d : Decoder) (validate : Config J → Exec W (Validated J d))
    (call_probe : String → String → Exec W (Option (Option Bool))) where
  unfoldable pub liveness : Config J → Exec W (Unit {0})
  unfolding pb2_prefix report_probe
  liveness c = do
    v ← validate c
    response ← call_probe (pb2_prefix v.csi_spec) c.endpoint
    report_probe v.csi_spec response
