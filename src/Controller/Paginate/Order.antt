-- ===== src/Controller/Paginate/Order.antt =====
-- The order in which `_paginate` of ember_csi/base.py lists resources.
use mathlib.Core.List.{Perm}
use mathlib.Core.List.Perm
use ember_csi.Base.{ℕ, ◌≤◌, List, [], ◌∷◌, All, leb, Bool-cases, inl, inr, arith}
use ember_csi.Controller.Paginate.{insert_sorted, sort_by_date}

module _ {A : Type 0} (created_at : A → ℕ) where
  abbrev pub IsSorted : List A → Type 0
  IsSorted [] = Unit
  IsSorted (x ∷ xs) = All (λ y. created_at x ≤ created_at y) xs × IsSorted xs

  pub All-insert :
      (P : A → Type 0) (x : A) (ys : List A)
      → P x
      → All P ys
      → All P (insert_sorted created_at x ys)
  unfolding insert_sorted
  All-insert P x [] p h = (p, tt)
  All-insert P x (y ∷ ys) p h = elim (Bool-cases (leb (created_at x) (created_at y))) [
    | inl le ↦ rw le (p, (h.0, h.1))
    | inr gt ↦ rw gt (h.0, All-insert P x ys p h.1)
  ]

  All-le :
      (m n : ℕ) (ys : List A)
      → m ≤ n
      → All (λ y. n ≤ created_at y) ys
      → All (λ y. m ≤ created_at y) ys
  All-le m n [] le h = tt
  All-le m n (y ∷ ys) le h = (omega arith, All-le m n ys le h.1)

  insert-IsSorted : (x : A) (ys : List A) → IsSorted ys → IsSorted (insert_sorted created_at x ys)
  unfolding insert_sorted
  insert-IsSorted x [] h = (tt, tt)
  insert-IsSorted x (y ∷ ys) h = elim (Bool-cases (leb (created_at x) (created_at y))) [
    | inl le ↦
        let first : created_at x ≤ created_at y = ground arith in
        rw le ((first, All-le (created_at x) (created_at y) ys first h.0), h)
    | inr gt ↦ rw gt (
      All-insert (λ z. created_at y ≤ created_at z) x ys (ground arith) h.0,
      insert-IsSorted x ys h.1,
    )
  ]

  insert-perm : (x : A) (ys : List A) → Perm (insert_sorted created_at x ys) (x ∷ ys)
  unfolding insert_sorted
  insert-perm x [] = Perm.refl (x ∷ [])
  insert-perm x (y ∷ ys) = elim (Bool-cases (leb (created_at x) (created_at y))) [
    | inl le ↦ rw le (Perm.refl (x ∷ y ∷ ys))
    | inr gt ↦ rw gt (Perm.trans (Perm.cons y (insert-perm x ys)) (Perm.swap x y ys))
  ]

  -- The resources are listed by date of creation, each of them once.
  pub sort_by_date-IsSorted :
      (xs : List A) → IsSorted (sort_by_date created_at xs) × Perm (sort_by_date created_at xs) xs
  unfolding sort_by_date
  sort_by_date-IsSorted [] = (tt, Perm.refl [])
  sort_by_date-IsSorted (x ∷ xs) =
      let (sorted, same) = sort_by_date-IsSorted xs in
      (
        insert-IsSorted x (sort_by_date created_at xs) sorted,
        Perm.trans (insert-perm x (sort_by_date created_at xs)) (Perm.cons x same),
      )
