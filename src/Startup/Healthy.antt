-- ===== src/Startup/Healthy.antt =====
-- What ember_csi/liveness.py reports of a server with the `Probe` of ember_csi/base.py.
use ember_csi.Base.{◌≡◌, refl, String, Bool, Option, none, some}
use ember_csi.Rpc.{abort, exited, Outcome, ok, err, Exec}
use ember_csi.Cinder.{KeyValue, Cinder}
use ember_csi.Csi.{SpecVersion, v0_2_0, v0_3_0, v1_0_0}
use ember_csi.Identity.Probe.{Decimal, probe}
use ember_csi.Config.Reading.{Config}
use ember_csi.Config.Topologies.{Decoder}
use ember_csi.Config.Validation.{Validated}
use ember_csi.Startup.{pb2_prefix, probe_resp_ok, report_probe, liveness}

-- A handler that returns or aborts has sent a reply.
abbrev pub IsReplied : Outcome (Unit {0}) → Type 0
IsReplied (ok t) = Unit
IsReplied (err (abort c details)) = Unit
IsReplied (err e) = ⊥

-- What the client makes of it: an abort is `grpc.RpcError`.
abbrev pub reply : SpecVersion → Outcome (Unit {0}) → Option (Option Bool)
reply v (ok t) = some (probe_resp_ok v)
reply v (err e) = none

abbrev pub verdict : Outcome (Unit {0}) → Outcome (Unit {0})
verdict (ok t) = ok tt
verdict (err e) = err (exited 2)

reported :
    {W : Type 0} (v : SpecVersion) (r : Outcome (Unit {0})) (w : W)
    → report_probe v (reply v r) w ≡ (verdict r, w)
unfolding report_probe probe_resp_ok
reported v (err e) w = refl
reported v0_2_0 (ok t) w = refl
reported v0_3_0 (ok t) w = refl
reported v1_0_0 (ok t) w = refl

module _ {W J : Type 0} (d : Decoder) (cl : Cinder W) (dec : Decimal) (enable has_backend : Bool)
    (validate : Config J → Exec (W × KeyValue) (Validated J d))
    (call_probe : String → String → Exec (W × KeyValue) (Option (Option Bool))) where
  -- Where gRPC brings back what the servicer of the version replies at the endpoint, the command
  -- returns if `Probe` does and exits with 2 if it aborts, in each version; it never exits with 1.
  pub liveness_healthy :
      (c : Config J) (v : Validated J d) (w x : W × KeyValue)
      → validate c w ≡ (ok v, x)
      → IsReplied (probe cl dec enable has_backend x).0
      → ((y : W × KeyValue)
          → IsReplied (probe cl dec enable has_backend y).0
          → call_probe (pb2_prefix v.csi_spec) c.endpoint y ≡ (
            ok (reply v.csi_spec (probe cl dec enable has_backend y).0),
            (probe cl dec enable has_backend y).1,
          ))
      → liveness d validate call_probe c w
        ≡ (verdict (probe cl dec enable has_backend x).0, (probe cl dec enable has_backend x).1)
  unfolding liveness
  liveness_healthy c v w x valid replied calls =
      rw (valid, calls x replied)
        (reported v.csi_spec (probe cl dec enable has_backend x).0
          (probe cl dec enable has_backend x).1)
