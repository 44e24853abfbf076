-- ===== src/Cinder/Laws.antt =====
-- What the catalogue of volumes relies on in cinderlib. The metadata keeps volumes by their ids; reading
-- changes nothing, and no other process changes the metadata meanwhile. Calls may fail: a volume that could not
-- be created or deleted may stay behind, as a failed one.
use ember_csi.Base.{
  ℕ, ◌≡◌, ◌≢◌, ◌⊎◌, String, ◌==◌, truthy, true, false, Option, none, some, List, [], ◌∷◌, All,
  if◌then◌else◌,
}
use ember_csi.Base.Int.{ℤ}
use ember_csi.Rpc.{missing_resource, Outcome, ok, err, Exec}
use ember_csi.Rpc.Effects.{IsQuiet}
use ember_csi.Cinder.{Volume, Snapshot, VolumeParams, Cinder}

-- The volumes by their ids.
abbrev pub Catalogue : Type 0
Catalogue = String → Option Volume

abbrev pub Among : {A : Type 0} → A → List A → Type 0
Among x [] = ⊥
Among x (y ∷ ys) = (x ≡ y) ⊎ Among x ys

abbrev pub IsDistinct : List Volume → Type 0
IsDistinct [] = Unit
IsDistinct (v ∷ vs) = All (λ (x : Volume). x.id ≢ v.id) vs × IsDistinct vs

-- The volumes that pass a test, each once.
pub record Lists (f : Catalogue) (Passes : Volume → Type 0) (vs : List Volume) : Type 0 where
  pub sound : All (λ (v : Volume). (f v.id ≡ some v) × Passes v) vs
  pub complete : (n : String) (v : Volume) → f n ≡ some v → Passes v → Among v vs
  pub distinct : IsDistinct vs

-- At most one volume is added, under a new id and with the name; none is, where `o` is `none`.
abbrev pub Plus : Catalogue → String → Option Volume → Catalogue → Type 0
Plus f name none g = g ≡ f
Plus f name (some v) g =
    (f v.id ≡ none) × (v.name ≡ name) × (g ≡ (λ n. if v.id == n then some v else f n))

-- A volume that is returned is the added one, and is not marked as deleted.
abbrev pub Returned : Outcome Volume → Option Volume → Type 0
Returned (ok v) o = (o ≡ some v) × ((v.status == "deleted") ≡ false)
Returned (err e) o = Unit

abbrev pub Makes : {W : Type 0} → (W → Catalogue) → Catalogue → String → Outcome Volume × W → Type 0
Makes view f name (r, u) = (o : Option Volume) × Plus f name o (view u) × Returned r o

abbrev pub Creates : {W : Type 0} → (W → Catalogue) → String → Exec W Volume → Type 0
Creates {W} view name m = (w : W) → Makes view (view w) name (m w)

-- What may stand in the place of a volume afterwards: nothing, or a volume of its id and its name.
abbrev pub Replaces : Volume → Option Volume → Type 0
Replaces v none = Unit
Replaces v (some x) = (x.id ≡ v.id) × (x.name ≡ v.name)

-- The volume's place is changed, to `target` where the action returns.
abbrev pub Changed : Outcome (Unit {0}) → Option Volume → Option Volume → Type 0
Changed (ok t) target o = o ≡ target
Changed (err e) target o = Unit

-- The object is of the volume that is stored under its id, if there is one.
abbrev pub Knows : Catalogue → Volume → Type 0
Knows f v = (x : Volume) → f v.id ≡ some x → x.name ≡ v.name

abbrev pub Changes :
    {W : Type 0} → (W → Catalogue) → Volume → Option Volume → Exec W (Unit {0}) → Type 0
Changes {W} view v target m =
    (w : W)
    → Knows (view w) v
    → (o : Option Volume) × Replaces v o
      × (view (m w).1 ≡ (λ n. if v.id == n then o else view w n))
      × Changed (m w).0 target o

abbrev pub Refreshed : Catalogue → Volume → Outcome Volume → Type 0
Refreshed f v (ok x) = (x.id ≡ v.id) × (x.name ≡ v.name)
Refreshed f v (err missing_resource) = f v.id ≡ none
Refreshed f v (err e) = Unit

pub record CinderLaws {W : Type 0} (cl : Cinder W) (backend : Option String) (view : W → Catalogue)
    : Type 0 where
  pub keyed : (w : W) (n : String) (v : Volume) → view w n ≡ some v → v.id ≡ n
  pub reads_quiet : (id name : Option String) → IsQuiet view (cl.get_volumes id name backend)
  pub by_id :
      (id : String) (w : W) (vs : List Volume)
      → truthy id ≡ true
      → (cl.get_volumes (some id) none backend w).0 ≡ ok vs
      → Lists (view w) (λ v. v.id ≡ id) vs
  pub by_name :
      (name : String) (w : W) (vs : List Volume)
      → truthy name ≡ true
      → (cl.get_volumes none (some name) backend w).0 ≡ ok vs
      → Lists (view w) (λ v. v.name ≡ name) vs
  pub snapshots_quiet : (v : Volume) → IsQuiet view (cl.snapshots v)
  pub get_snapshots_quiet : (a b c : Option String) → IsQuiet view (cl.get_snapshots a b c)
  pub sleep_quiet : (n : ℕ) → IsQuiet view (cl.sleep n)
  pub sleeps : (n : ℕ) (w : W) → (cl.sleep n w).0 ≡ ok tt
  pub refresh_quiet : (v : Volume) → IsQuiet view (cl.refresh v)
  pub refreshed : (v : Volume) (w : W) → Knows (view w) v → Refreshed (view w) v (cl.refresh v w).0
  pub creates :
      (size : ℤ) (name : String) (p : VolumeParams)
      → Creates view name (cl.create_volume size name p)
  pub clones :
      (v : Volume) (name : String) (size : ℤ) (p : VolumeParams)
      → Creates view name (cl.clone v name size p)
  pub creates_from :
      (x : Snapshot) (name : String) (p : VolumeParams)
      → Creates view name (cl.create_from_snapshot x name p)
  pub deletes : (v : Volume) → Changes view v none (cl.delete v)
  pub saves : (v : Volume) → Changes view v (some v) (cl.save v)
