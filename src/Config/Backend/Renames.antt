-- ===== src/Config/Backend/Renames.antt =====
-- The simpler names of options of the backend, in ember_csi/config.py.
use ember_csi.Base.{
  ◌≡◌, refl, String, ◌==◌, eq_iff, false, Option, none, some, arith, if◌then◌else◌,
}
use ember_csi.Base.Dict.{Dict, lookup, erase, set_default, contains, lookup-insert, lookup-erase}
use ember_csi.Config.Backend.{Setting, move_to, rename}

-- `a if a is there else b`
abbrev pub or_else {ℓ} : {A : Type ℓ} → Option A → Option A → Option A
or_else none b = b
or_else (some a) b = some a

module _ {J : Type 0} where
  pub lookup-set_default :
      (k j : String) (v : Setting J) (d : Dict (Setting J))
      → lookup j (set_default k v d)
        ≡ (if k == j then or_else (lookup j d) (some v) else lookup j d)
  unfolding set_default contains
  lookup-set_default k j v d = ground (arith, eq_iff k j, lookup-insert k j v d)

  lookup-move_to :
      (key replacement j : String) (m : Option (Setting J)) (config : Dict (Setting J))
      → (key == replacement) ≡ false
      → lookup key config ≡ m
      → lookup j (move_to key replacement m config) ≡ (
          if key == j
          then none
          else if replacement == j
          then or_else (lookup j config) m
          else lookup j config)
  lookup-move_to key replacement j none config distinct here = ground (arith, eq_iff key j)
  lookup-move_to key replacement j (some v) config distinct here = ground (
    arith,
    eq_iff key j,
    eq_iff replacement j,
    eq_iff key replacement,
    lookup-set_default replacement j v (erase key config),
    lookup-erase key j config,
  )

  -- After an option is renamed its simple name is gone, the full name has the value that it had, or
  -- else the one of the simple name, and every other option has its value.
  pub lookup-rename :
      (key replacement j : String) (config : Dict (Setting J))
      → (key == replacement) ≡ false
      → lookup j (rename key replacement config) ≡ (
          if key == j
          then none
          else if replacement == j
          then or_else (lookup j config) (lookup key config)
          else lookup j config)
  unfolding rename
  lookup-rename key replacement j config distinct =
      lookup-move_to key replacement j (lookup key config) config distinct refl
