-- ===== src/Resources/Laws.antt =====
-- What the custom resources of ember_csi/cl_crd.py rely on in the API of Kubernetes: it keeps objects by
-- their name, and stamps each write with a new version.
use ember_csi.Base.{◌≡◌, ◌≢◌, String, ◌==◌, ◌<>◌, Option, none, some, if◌then◌else◌}
use ember_csi.Base.Dict
use ember_csi.Base.Dict.{Dict}
use ember_csi.Rpc.{api_error, ok, err}
use ember_csi.Resources.{Cro, CrdApi, Kind}

abbrev pub stamped : String → Cro → Cro
stamped v c = record c { resource_version = some v }

-- `view w n` is the object that the cluster has by the name `n`.
pub record ApiLaws {W : Type 0} (api : CrdApi W) (view : W → String → Option Cro) : Type 0 where
  pub get_there :
      (w : W) (n : String) (c : Cro) → view w n ≡ some c → api.get_object n w ≡ (ok c, w)
  pub get_absent :
      (w : W) (n : String) → view w n ≡ none → api.get_object n w ≡ (err (api_error 404), w)
  pub create_absent :
      (w : W) (c : Cro)
      → view w c.name ≡ none
      → (v : String) × (u : W) × (api.create_object c w ≡ (ok (stamped v c), u))
        × ((n : String) → view u n ≡ (if c.name == n then some (stamped v c) else view w n))
  pub replace_current :
      (w : W) (n : String) (c d : Cro)
      → view w n ≡ some d
      → c.resource_version ≡ d.resource_version
      → (v : String) × (u : W) × (api.replace_object n c w ≡ (ok (stamped v c), u))
        × ((m : String) → view u m ≡ (if n == m then some (stamped v c) else view w m))
  pub replace_stale :
      (w : W) (n v : String) (c d : Cro)
      → view w n ≡ some d
      → c.resource_version ≡ some v
      → d.resource_version ≢ some v
      → api.replace_object n c w ≡ (err (api_error 409), w)
  pub delete_there :
      (w : W) (n : String) (c : Cro)
      → view w n ≡ some c
      → (u : W) × (api.delete_object n w ≡ (ok tt, u))
        × ((m : String) → view u m ≡ (if n == m then none else view w m))
  pub delete_absent :
      (w : W) (n : String) → view w n ≡ none → api.delete_object n w ≡ (err (api_error 404), w)

-- What a class relies on: cinderlib loads what it has printed, and the labels name the object.
pub record IsKind {R : Type 0} (cls : Kind R) : Type 0 where
  pub load-to_jsons : (r : R) → cls.load (cls.to_jsons r) ≡ ok r
  pub labels_id : (r : R) → Dict.lookup (cls.singular <> "_id") (cls.get_labels r) ≡ some (cls.id r)
