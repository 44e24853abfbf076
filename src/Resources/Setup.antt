-- ===== src/Resources/Setup.antt =====
-- `CRD.ensure_crds_exist` and `CRD.create_crd_definition` of ember_csi/cl_crd.py.
pub mod Complete
use ember_csi.Base.{String, ◌<>◌, elem, Bool, true, false, eqb, List, [], ◌∷◌, if◌then◌else◌}
use ember_csi.Base.Case.{lower}
use ember_csi.Rpc.{api_error, Outcome, ok, err, Exec, pure, ◌>>=◌, ◌>>◌}

-- A subclass by its name and its `SHORTNAME`.
pub record CrdClass : Type 0 where
  pub class_name : String
  pub short_name : String

abbrev pub crd_classes : List CrdClass
crd_classes =
    record { class_name = "Volume"; short_name = "vol" }
    ∷ record { class_name = "Snapshot"; short_name = "snap" }
    ∷ record { class_name = "Connection"; short_name = "conn" }
    ∷ record { class_name = "KeyValue"; short_name = "kv" }
    ∷ []

-- The attributes that the class is given.
unfoldable pub singular : CrdClass → String
singular c = lower c.class_name

unfoldable pub plural : CrdClass → String
unfolding singular
plural c = singular c <> "s"

-- The definition of a custom resource, as far as it differs from class to class.
pub record CrdDefinition : Type 0 where
  pub name : String
  pub group : String
  pub version : String
  pub kind : String
  pub singular_name : String
  pub plural_name : String
  pub short_names : List String
  pub categories : List String

module _ (domain : String) where
  unfoldable pub api_name : CrdClass → String
  unfolding plural
  api_name c = plural c <> ("." <> domain)

  unfoldable pub crd_definition : CrdClass → CrdDefinition
  unfolding singular plural api_name
  crd_definition c = record {
    name = api_name c;
    group = domain;
    version = "v1";
    kind = c.class_name;
    singular_name = singular c;
    plural_name = plural c;
    short_names = c.short_name ∷ [];
    categories = "all" ∷ "ember" ∷ [];
  }

-- `K8S.ext_api`: the kinds of the definitions that there are, and the creation of one.
pub record ExtApi (W : Type 0) : Type 0 where
  pub list_kinds : Exec W (List String)
  pub create_definition : CrdDefinition → Exec W (Unit {0})

-- `except ApiException as exc: if exc.status != 409: raise`
abbrev pub ignore_conflict : {W : Type 0} → Outcome (Unit {0}) → Exec W (Unit {0})
ignore_conflict (ok t) w = (ok t, w)
ignore_conflict (err (api_error n)) w = if eqb n 409 then (ok tt, w) else (err (api_error n), w)
ignore_conflict (err e) w = (err e, w)

module _ {W : Type 0} (ext : ExtApi W) (domain : String) where
  unfoldable pub create_if_missing : List String → CrdClass → Exec W (Unit {0})
  create_if_missing current c w = elim (elem c.class_name current) [
    | true ↦ (ok tt, w)
    | false ↦ let (r, u) = ext.create_definition (crd_definition domain c) w in ignore_conflict r u
  ]

  -- The loop over the subclasses.
  unfoldable pub create_missing : List String → List CrdClass → Exec W (Unit {0})
  create_missing current [] = pure tt
  create_missing current (c ∷ cs) = create_if_missing current c >> create_missing current cs

  unfoldable pub ensure_crds_exist : List CrdClass → Exec W (Unit {0})
  ensure_crds_exist classes = ext.list_kinds >>= λ current. create_missing current classes
