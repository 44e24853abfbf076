-- ===== src/Examples/Startup.antt =====
-- The commands at concrete values.
use ember_csi.Base.{ℕ, ◌≡◌, refl, String, Bool, true, false, Option, some, []}
use ember_csi.Rpc.{exited, ok, err, Exec}
use ember_csi.Cinder.{KeyValue}
use ember_csi.Csi.{v1_0_0}
use ember_csi.Config.Reading.{Config}
use ember_csi.Config.Validation.{Validated}
use ember_csi.Identity.Probe.{
  Decimal, or_value_error, check_stored, store_probe, check_driver, probe,
}
use ember_csi.Startup.{module_name, liveness}
use ember_csi.Startup.Healthy.{reply, liveness_healthy}
use ember_csi.Samples.Cluster.{Cluster, no_cinder}
use ember_csi.Samples.Configs.{decoder, node_config, validated}

module_of_v1 : module_name v1_0_0 ≡ "ember_csi.v1_0_0.csi"
unfolding module_name
module_of_v1 = refl

-- The persistence fails, and the probe is enabled.
abbrev dec : Decimal
dec = record { int = λ t. some 0; str = λ n. "1" }

abbrev validate : Config ℕ → Exec (Cluster × KeyValue) (Validated ℕ decoder)
validate c w = (ok validated, w)

abbrev call_probe : String → String → Exec (Cluster × KeyValue) (Option (Option Bool))
call_probe prefix endpoint y =
    (ok (reply v1_0_0 (probe no_cinder dec true false y).0), (probe no_cinder dec true false y).1)

abbrev start : Cluster × KeyValue
start = (record { objects = []; writes = 0 }, record { key = "node.probe"; value = "0" })

abbrev probed : Cluster × KeyValue
probed = (record { objects = []; writes = 0 }, record { key = "node.probe"; value = "1" })

liveness_healthy_example :
    liveness decoder validate call_probe node_config start ≡ (err (exited 2), probed)
unfolding probe store_probe check_stored or_value_error check_driver
liveness_healthy_example =
    liveness_healthy decoder no_cinder dec true false validate call_probe node_config validated
      start start refl tt (λ y replied. refl)
