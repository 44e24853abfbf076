-- ===== src/Samples/Single.antt =====
-- A backend with room for one volume, as the interface to cinderlib sees it.
pub mod Lawful
use ember_csi.Base.{
  String, ◌==◌, ◌&&◌, Bool, true, Option, none, some, List, [], ◌∷◌, if◌then◌else◌,
}
use ember_csi.Base.Int.{pos}
use ember_csi.Rpc.{missing_resource, other, Outcome, ok, err, Exec}
use ember_csi.Cinder.{Volume, Connection, Snapshot, KeyValue, Cinder}
use ember_csi.Cinder.Laws.{Catalogue}
use ember_csi.Samples.{volume}

abbrev pub kept : Option Volume → Catalogue
kept none n = none
kept (some v) n = if v.id == n then some v else none

abbrev matches : Option String → String → Bool
matches none x = true
matches (some y) x = y == x

abbrev pub listed : Option String → Option String → Option Volume → List Volume
listed id name none = []
listed id name (some v) = if matches id v.id && matches name v.name then v ∷ [] else []

abbrev pub added : String → Option Volume → Outcome Volume × Option Volume
added name none = (ok (volume name name "available"), some (volume name name "available"))
added name (some v) = (err (other "no space left"), some v)

abbrev pub refreshed : Volume → Option Volume → Outcome Volume × Option Volume
refreshed v none = (err missing_resource, none)
refreshed v (some x) = (if x.id == v.id then ok x else err missing_resource, some x)

-- The volume's place is changed, if it is there; `target` is what is put there.
abbrev pub put : Volume → Option Volume → Option Volume → Outcome (Unit {0}) × Option Volume
put v target none = (err missing_resource, none)
put v target (some x) = if x.id == v.id then (ok tt, target) else (err missing_resource, some x)

abbrev unsupported : {A : Type 0} → Exec (Option Volume) A
unsupported w = (err (other "unsupported"), w)

abbrev pub single_store : Cinder (Option Volume)
single_store = record {
  get_volumes = λ id name backend w. (ok (listed id name w), w);
  get_snapshots = λ id name vol w. (ok [], w);
  get_key_values = λ key. unsupported;
  set_key_value = λ kv. unsupported;
  create_volume = λ size name params w. added name w;
  check_for_setup_error = unsupported;
  stats = unsupported;
  free_capacity = unsupported;
  refresh = λ v w. refreshed v w;
  save = λ v w. put v (some v) w;
  delete = λ v w. put v none w;
  clone = λ v name size params w. added name w;
  connect = λ v connector host. unsupported;
  create_snapshot = λ v name. unsupported;
  snapshots = λ v w. (ok [], w);
  connections = λ v w. (ok [], w);
  snapshot_volume = λ x. unsupported;
  create_from_snapshot = λ x name params w. added name w;
  delete_snapshot = λ x. unsupported;
  save_connection = λ c. unsupported;
  disconnect = λ c. unsupported;
  sleep = λ n w. (ok tt, w);
}
