-- ===== src/Controller/Catalogue.antt =====
-- The volumes that the controllers of ember_csi/base.py keep, by their ids: at most one of a name is live.
pub mod Quiet
pub mod Waits
pub mod Lookups
pub mod Created
pub mod Create
pub mod Delete
pub mod Requests
pub mod Again
use ember_csi.Base.{
  ◌≡◌, ◌≢◌, refl, sym, ap, ◌∙◌, ◌⊎◌, inl, inr, String, ◌==◌, eq_iff, Bool, true, false, Bool-cases,
  Option, none, some, List, [], ◌∷◌, All, arith, if◌then◌else◌,
}
use ember_csi.Cinder.{Volume}
use ember_csi.Cinder.Laws.{Catalogue, Among, Knows, Plus, Replaces}
use ember_csi.Identity.Lookup.Live.{IsLive}

-- Two live volumes of one name are one volume.
abbrev pub IsUnique : Catalogue → Type 0
IsUnique f =
    (n k : String) (v x : Volume)
    → f n ≡ some v
    → f k ≡ some x
    → IsLive v
    → IsLive x
    → v.name ≡ x.name
    → n ≡ k

pub known_at :
    (f : Catalogue) (v stored : Volume) → f v.id ≡ some stored → stored.name ≡ v.name → Knows f v
known_at f v stored at named x here = ground (arith, at, here, named)

-- No live volume has the name.
abbrev pub IsFree : Catalogue → String → Type 0
IsFree f name = (n : String) (v : Volume) → f n ≡ some v → v.name ≡ name → ¬ IsLive v

module _ (f : Catalogue) (unique : IsUnique f) where
  -- A volume is added under a free name.
  pub plus-IsUnique :
      (name : String) (o : Option Volume) (g : Catalogue)
      → Plus f name o g
      → ((v : Volume) → o ≡ some v → IsFree f name)
      → IsUnique g
  plus-IsUnique name none g same free = rw same unique
  plus-IsUnique name (some y) g (fresh, named, same) free = rw same added
    where
      added : IsUnique (λ n. if y.id == n then some y else f n)
      added n k v x at_n at_k live_v live_x names =
          ground
            (arith, unique n k v x, eq_iff y.id n, eq_iff y.id k, free y refl n v, free y refl k x)

  -- The place of a live volume is changed.
  pub replace-IsUnique :
      (y stored : Volume) (o : Option Volume)
      → f y.id ≡ some stored
      → IsLive stored
      → stored.name ≡ y.name
      → Replaces y o
      → IsUnique (λ n. if y.id == n then o else f n)
  replace-IsUnique y stored none there live_y named same n k v x at_n at_k live_v live_x names =
      ground (arith, unique n k v x, eq_iff y.id n, eq_iff y.id k)
  replace-IsUnique y stored (some z) there live_y named (ids, kept) n k v x at_n at_k live_v live_x
        names =
      ground (
        arith,
        unique n k v x,
        unique y.id k stored x,
        unique n y.id v stored,
        eq_iff y.id n,
        eq_iff y.id k,
      )
