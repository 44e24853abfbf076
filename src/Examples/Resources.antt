-- ===== src/Examples/Resources.antt =====
-- The custom resources on a small cluster.
use ember_csi.Base.{
  ◌≡◌, ◌≢◌, refl, eq_iff, String, ◌==◌, ◌||◌, Bool, true, false, some, List, [], ◌∷◌, All, arith,
  if◌then◌else◌,
}
use ember_csi.Base.Dict.{lookup}
use ember_csi.Rpc.{api_error, ok, err, Exec}
use ember_csi.Resources.{Cro, Kind, set}
use ember_csi.Resources.Laws.{IsKind}
use ember_csi.Resources.Saves.{set_stale}
use ember_csi.Resources.Refines.{Op, save, remove, run, replay, object_at, run_refines}
use ember_csi.Resources.Setup.{
  crd_classes, crd_definition, CrdDefinition, ExtApi, ensure_crds_exist, create_missing,
  create_if_missing, singular, plural, api_name,
}
use ember_csi.Resources.Setup.Complete.{DefinitionLaws, HasOrListed, ensure_crds_exist_complete}
use ember_csi.Samples.Cluster.{Cluster, cluster_api, cluster_laws, view}

-- Objects that are texts, which are their own ids and their own JSON.
abbrev texts : Kind String
texts = record {
  singular = "connection";
  get_labels = λ r. ("connection_id", r) ∷ [];
  id = λ r. r;
  to_jsons = λ r. r;
  load = λ t. ok t;
}

texts-IsKind : IsKind texts
unfolding lookup
texts-IsKind = record { load-to_jsons = λ r. refl; labels_id = λ r. refl }

abbrev bare : Cluster
bare = record { objects = []; writes = 0 }

abbrev ops : List (Op String)
ops = save "c1" ∷ save "c2" ∷ save "c1" ∷ remove "c2" ∷ remove "c3" ∷ []

run_refines_example :
    (u : Cluster) × (run cluster_api texts view cluster_laws texts-IsKind ops bare ≡ (ok tt, u))
    × (object_at cluster_api texts view cluster_laws texts-IsKind u
        ≡ replay cluster_api texts view cluster_laws texts-IsKind ops
            (object_at cluster_api texts view cluster_laws texts-IsKind bare))
run_refines_example = run_refines cluster_api texts view cluster_laws texts-IsKind ops bare

-- The resource has been written since it was read.
abbrev current : Cro
current = record { name = "c1"; labels = []; annotations = []; resource_version = some "iv" }

abbrev holding : Cluster
holding = record { objects = ("c1", current) ∷ []; writes = 2 }

set_stale_example :
    set cluster_api texts ("c1", some "v") false holding ≡ (err (api_error 409), holding)
unfolding lookup
set_stale_example =
    set_stale cluster_api texts view cluster_laws "c1" "v" current holding refl other
  where
    other : current.resource_version ≢ some "v"
    other e = ground (arith, eq_iff "iv" "v")

-- The definitions that there are, by their kinds and names.
abbrev Definitions : Type 0
Definitions = List (String × String)

abbrev kinds : Definitions → List String
kinds [] = []
kinds ((k, n) ∷ ds) = k ∷ kinds ds

abbrev has : Definitions → String → Bool
has [] m = false
has ((k, n) ∷ ds) m = (m == n) || has ds m

abbrev add_definition : CrdDefinition → Exec Definitions (Unit {0})
add_definition d w =
    if has w d.name then (err (api_error 409), w) else (ok tt, (d.kind, d.name) ∷ w)

abbrev definitions : ExtApi Definitions
definitions = record { list_kinds = λ w. (ok (kinds w), w); create_definition = add_definition }

definitions_laws : DefinitionLaws definitions "ember-csi.io" has
unfolding crd_definition
definitions_laws = record {
  lists = λ w n m. m;
  created =
      λ c w u e. ground (arith, eq_iff (api_name "ember-csi.io" c) (api_name "ember-csi.io" c));
  conflict = λ c w u e. ground arith;
  keeps = λ c n w m. ground arith;
}

abbrev foreign : Definitions
foreign = ("Volume", "volumes.other.io") ∷ []

abbrev afterwards : Definitions
afterwards =
    ("KeyValue", "keyvalues.ember-csi.io")
    ∷ ("Connection", "connections.ember-csi.io")
    ∷ ("Snapshot", "snapshots.ember-csi.io")
    ∷ foreign

-- The definition of another group keeps the one of the volumes from being created.
set_up : ensure_crds_exist definitions "ember-csi.io" crd_classes foreign ≡ (ok tt, afterwards)
unfolding ensure_crds_exist create_missing create_if_missing crd_definition api_name plural singular
set_up = refl

ensure_crds_exist_complete_example :
    (ks : List String) × (v : Definitions) × (definitions.list_kinds foreign ≡ (ok ks, v))
    × All (HasOrListed definitions "ember-csi.io" has definitions_laws ks afterwards) crd_classes
    × ((n : String) → has foreign n ≡ true → has afterwards n ≡ true)
ensure_crds_exist_complete_example =
    ensure_crds_exist_complete definitions "ember-csi.io" has definitions_laws crd_classes foreign
      afterwards set_up

plural_names : plural (record { class_name = "KeyValue"; short_name = "kv" }) ≡ "keyvalues"
unfolding plural singular
plural_names = refl
