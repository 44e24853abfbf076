-- ===== src/Samples/Cluster.antt =====
-- A small cluster, which keeps custom resources by their names and counts the writes.
use ember_csi.Base.{
  ℕ, zero, suc, ◌≡◌, ◌≢◌, refl, eq_iff, String, ◌==◌, ◌<>◌, Bool, true, false, Option, none, some,
  [], arith, if◌then◌else◌,
}
use ember_csi.Base.Dict.{Dict, lookup, insert, erase, lookup-insert, lookup-erase}
use ember_csi.Rpc.{api_error, missing_resource, Outcome, ok, err, Exec}
use ember_csi.Cinder.{Cinder}
use ember_csi.Resources.{Cro, CrdApi}
use ember_csi.Resources.Laws.{stamped, ApiLaws}

pub record Cluster : Type 0 where
  pub objects : Dict Cro
  pub writes : ℕ

abbrev pub version_text : ℕ → String
version_text zero = "v"
version_text (suc n) = "i" <> version_text n

abbrev pub view : Cluster → String → Option Cro
unfolding lookup
view w n = lookup n w.objects

abbrev pub found : Option Cro → Outcome Cro
found none = err (api_error 404)
found (some c) = ok c

abbrev pub write : String → Cro → Exec Cluster Cro
unfolding insert
write n c w =
    let d = stamped (version_text w.writes) c in
    (ok d, record { objects = insert n d w.objects; writes = suc w.writes })

abbrev pub create_at : Option Cro → Cro → Exec Cluster Cro
create_at none c w = write c.name c w
create_at (some d) c w = (err (api_error 409), w)

abbrev pub same_version : Option String → Option String → Bool
same_version none none = true
same_version (some v) (some u) = v == u
same_version _ _ = false

abbrev pub replace_at : Option Cro → String → Cro → Exec Cluster Cro
replace_at none n c w = (err (api_error 404), w)
replace_at (some d) n c w =
    if same_version c.resource_version d.resource_version
    then write n c w
    else (err (api_error 409), w)

abbrev pub delete_at : Option Cro → String → Exec Cluster (Unit {0})
unfolding erase
delete_at none n w = (err (api_error 404), w)
delete_at (some d) n w = (ok tt, record w { objects = erase n w.objects })

abbrev pub cluster_api : CrdApi Cluster
cluster_api = record {
  get_object = λ n w. (found (view w n), w);
  select = λ s w. (ok [], w);
  create_object = λ c w. create_at (view w c.name) c w;
  replace_object = λ n c w. replace_at (view w n) n c w;
  delete_object = λ n w. delete_at (view w n) n w;
}

same_version_refl : (a b : Option String) → a ≡ b → same_version a b ≡ true
same_version_refl none none e = refl
same_version_refl none (some b) e = absurd (cc e)
same_version_refl (some a) none e = absurd (cc e)
same_version_refl (some a) (some b) e = ground (arith, eq_iff a b)

same_version_stale :
    (a b : Option String) (v : String) → a ≡ some v → b ≢ some v → same_version a b ≡ false
same_version_stale none b v e h = absurd (cc e)
same_version_stale (some a) none v e h = refl
same_version_stale (some a) (some b) v e h = ground (arith, eq_iff a b)

found-view :
    (w : Cluster) (n : String) (m : Option Cro)
    → view w n ≡ m
    → cluster_api.get_object n w ≡ (found m, w)
found-view w n m e = rw e refl

-- The cluster keeps what the plugin relies on.
pub cluster_laws : ApiLaws cluster_api view
unfolding lookup insert erase
cluster_laws = record {
  get_there = λ w n c e. found-view w n (some c) e;
  get_absent = λ w n e. found-view w n none e;
  create_absent = λ w c e.
      let (r, u) = write c.name c w in
      (
        version_text w.writes,
        u,
        rw e refl,
        λ n. lookup-insert c.name n (stamped (version_text w.writes) c) w.objects,
      );
  replace_current = λ w n c d e same.
      let (r, u) = write n c w in
      (
        version_text w.writes,
        u,
        rw (e, same_version_refl c.resource_version d.resource_version same) refl,
        λ m. lookup-insert n m (stamped (version_text w.writes) c) w.objects,
      );
  replace_stale = λ w n v c d e mine stale.
      rw (e, same_version_stale c.resource_version d.resource_version v mine stale) refl;
  delete_there = λ w n c e.
      (record w { objects = erase n w.objects }, rw e refl, λ m. lookup-erase n m w.objects);
  delete_absent = λ w n e. rw e refl;
}

-- A Cinder with no objects, whose calls fail.
abbrev failed : {A : Type 0} → Exec Cluster A
failed w = (err missing_resource, w)

abbrev pub no_cinder : Cinder Cluster
no_cinder = record {
  get_volumes = λ id name backend w. (ok [], w);
  get_snapshots = λ id name volume w. (ok [], w);
  get_key_values = λ key w. (ok [], w);
  set_key_value = λ kv. failed;
  create_volume = λ size name params. failed;
  check_for_setup_error = failed;
  stats = failed;
  free_capacity = failed;
  refresh = λ v. failed;
  save = λ v. failed;
  delete = λ v. failed;
  clone = λ v name size params. failed;
  connect = λ v connector mode. failed;
  create_snapshot = λ v name. failed;
  snapshots = λ v w. (ok [], w);
  connections = λ v w. (ok [], w);
  snapshot_volume = λ s. failed;
  create_from_snapshot = λ s name params. failed;
  delete_snapshot = λ s. failed;
  save_connection = λ c. failed;
  disconnect = λ c. failed;
  sleep = λ n w. (ok tt, w);
}
