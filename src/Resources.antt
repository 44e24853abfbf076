-- ===== src/Resources.antt =====
-- `CRD` of ember_csi/cl_crd.py: cinderlib's objects kept in Kubernetes custom resources. The client of
-- Kubernetes is not part of the repository, and is a parameter.
pub mod Laws
pub mod Saves
pub mod Refines
pub mod KeyValues
pub mod Persistence
pub mod Setup
use ember_csi.Base.{
  String, ◌==◌, ◌<>◌, join, Bool, true, false, eqb, Option, none, some, List, [], ◌∷◌,
  if◌then◌else◌,
}
use ember_csi.Base.Dict
use ember_csi.Base.Dict.{Dict}
use ember_csi.Rpc.{
  api_error, key_error, attribute_error, exited, diverged, Outcome, ok, err, Exec, pure, ◌>>=◌,
}

-- What the class reads and writes of a custom resource. What the API returns carries a version.
pub record Cro : Type 0 where
  pub name : String
  pub labels : Dict String
  pub annotations : Dict String
  pub resource_version : Option String

-- The calls of `K8S.crd_api`, which raise `ApiException` with a status; `select` lists by labels.
pub record CrdApi (W : Type 0) : Type 0 where
  pub get_object : String → Exec W Cro
  pub select : String → Exec W (List Cro)
  pub create_object : Cro → Exec W Cro
  pub replace_object : String → Cro → Exec W Cro
  pub delete_object : String → Exec W (Unit {0})

-- A class: `cls.singular`, and `_get_labels`, `id`, `to_jsons` and `cinderlib.load` of its objects.
pub record Kind (R : Type 0) : Type 0 where
  pub singular : String
  pub get_labels : R → Dict String
  pub id : R → String
  pub to_jsons : R → String
  pub load : String → Outcome R

-- `except ApiException as exc: if exc.status != 404: raise`, then `handler`.
abbrev pub handle_absent : {W A : Type 0} → Outcome A → Exec W A → Exec W A
handle_absent (ok a) handler w = (ok a, w)
handle_absent (err (api_error n)) handler w =
    let (r, u) = handler w in if eqb n 404 then (r, u) else (err (api_error n), w)
handle_absent (err e) handler w = (err e, w)

abbrev pub try_absent : {W A : Type 0} → Exec W A → Exec W A → Exec W A
try_absent m handler w = let (r, u) = m w in handle_absent r handler u

-- `except Exception as exc: if exc.status != 404: raise`: other exceptions have no status.
abbrev pub handle_any : {W A : Type 0} → Outcome A → Exec W A → Exec W A
handle_any (err (exited n)) handler w = (err (exited n), w)
handle_any (err diverged) handler w = (err diverged, w)
handle_any (err (api_error n)) handler w = handle_absent (err (api_error n)) handler w
handle_any (err e) handler w = (err (attribute_error "status"), w)
handle_any (ok a) handler w = (ok a, w)

abbrev pub try_any : {W A : Type 0} → Exec W A → Exec W A → Exec W A
try_any m handler w = let (r, u) = m w in handle_any r handler u

-- `{k: v for k, v in kwargs.items() if v is not None}`
unfoldable pub selector_of : Dict (Option String) → Dict String
selector_of [] = []
selector_of ((k, none) ∷ ks) = selector_of ks
selector_of ((k, some v) ∷ ks) = (k, v) ∷ selector_of ks

abbrev pairs : Dict String → List String
pairs [] = []
pairs ((k, v) ∷ ks) = (k <> ("=" <> v)) ∷ pairs ks

module _ {W : Type 0} (api : CrdApi W) where
  unfoldable pub delete : String → Exec W (Unit {0})
  delete name = try_absent (api.delete_object name) (pure tt)

  -- The part of `_apply` that does not know whether the object exists. The version that is read stays
  -- in the body, whatever comes of the replacement.
  unfoldable pub replace_found : String → Cro → Outcome Cro → Exec W Cro
  replace_found name body (err e) = handle_any (err e) (api.create_object body)
  replace_found name body (ok res) =
      let body' = record body { resource_version = res.resource_version } in
      try_any (api.replace_object name body') (api.create_object body')

  unfoldable pub replace_or_create : String → Cro → Exec W Cro
  replace_or_create name body w = let (r, u) = api.get_object name w in replace_found name body r u

  unfoldable pub apply_known : String → Cro → Option String → Exec W Cro
  apply_known name body (some version) = api.replace_object name body
  apply_known name body none = replace_or_create name body

  unfoldable pub apply : String → Cro → Bool → Exec W Cro
  apply name body is_new =
      if is_new then api.create_object body else apply_known name body body.resource_version

module _ {W R : Type 0} (api : CrdApi W) (cls : Kind R) where
  -- The version that the object carries is the one of the resource it was last read or written as.
  unfoldable pub set : R × Option String → Bool → Exec W (R × Option String)
  set (resource, version) is_new = do
    res ←
        apply api (cls.id resource)
          (record {
            name = cls.id resource;
            labels = cls.get_labels resource;
            annotations = ("json", cls.to_jsons resource) ∷ [];
            resource_version = version;
          })
          is_new
    pure (resource, res.resource_version)

  -- `res['metadata']['labels'][k] != v`
  abbrev label_fits : Option String → String → Outcome Bool
  label_fits none v = err key_error
  label_fits (some u) v = ok (u == v)

  unfoldable pub labels_fit : Dict String → Dict String → Outcome Bool
  unfolding Dict.lookup
  labels_fit labels [] = ok true
  labels_fit labels ((k, v) ∷ ks) =
      let rest = labels_fit labels ks in
      elim (label_fits (Dict.lookup k labels) v) [
        | err e ↦ err e
        | ok b ↦ if b then rest else ok false
      ]

  abbrev loaded : Option String → Outcome R
  loaded none = err key_error
  loaded (some json) = cls.load json

  unfoldable pub load_object : Cro → Outcome (R × Option String)
  unfolding Dict.lookup
  load_object c = elim (loaded (Dict.lookup "json" c.annotations)) [
    | err e ↦ err e
    | ok r ↦ ok (r, c.resource_version)
  ]

  unfoldable pub load_all : List Cro → Outcome (List (R × Option String))
  load_all [] = ok []
  load_all (c ∷ cs) =
      let rest = load_all cs in
      elim (load_object c) [
        | err e ↦ err e
        | ok r ↦ (elim rest [ err e ↦ err e | ok rs ↦ ok (r ∷ rs) ])
      ]

  abbrev found_object : Dict String → Cro → Exec W (List Cro)
  found_object selector c w = elim (labels_fit c.labels selector) [
    | err e ↦ (err e, w)
    | ok b ↦ (ok (if b then c ∷ [] else []), w)
  ]

  -- The early `return []` of an absent object loads nothing either.
  unfoldable pub select_objects : Dict String → Option String → Exec W (List Cro)
  select_objects selector none = api.select (join "," (pairs selector))
  select_objects selector (some res_id) =
      try_absent (api.get_object res_id >>= λ c. pure (c ∷ [])) (pure []) >>= λ cs. elim cs [
        | [] ↦ pure []
        | c ∷ _ ↦ found_object selector c
      ]

  unfoldable pub get : Dict (Option String) → Exec W (List (R × Option String))
  unfolding Dict.lookup
  get kwargs = do
    cs ←
        select_objects (selector_of kwargs)
          (Dict.lookup (cls.singular <> "_id") (selector_of kwargs))
    (λ w. (load_all cs, w))
