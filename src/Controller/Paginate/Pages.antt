-- ===== src/Controller/Paginate/Pages.antt =====
-- What a client sees who follows the tokens of `_paginate` of ember_csi/base.py from page to page.
use ember_csi.Base.{
  ℕ, zero, suc, ◌+◌, ◌≤◌, ◌<◌, ◌≡◌, ◌≢◌, refl, ap, ◌∙◌, leb, Bool-cases, inl, inr, List, [], ◌∷◌,
  All, length, arith,
}
use ember_csi.Controller.Paginate.Order.{IsSorted, All-insert}
use ember_csi.Controller.Paginate.{insert_sorted, sort_by_date, start_after, date_at}

module _ {A : Type 0} (created_at : A → ℕ) where
  -- Each resource is older than those behind it.
  abbrev pub IsStrict : List A → Type 0
  IsStrict [] = Unit
  IsStrict (x ∷ xs) = All (λ y. created_at x < created_at y) xs × IsStrict xs

  -- No two resources have the same date of creation, in whatever order they are.
  abbrev pub IsApart : List A → Type 0
  IsApart [] = Unit
  IsApart (x ∷ xs) = All (λ y. created_at x ≢ created_at y) xs × IsApart xs

  All-sort : (P : A → Type 0) (xs : List A) → All P xs → All P (sort_by_date created_at xs)
  unfolding sort_by_date
  All-sort P [] h = tt
  All-sort P (x ∷ xs) h =
      All-insert created_at P x (sort_by_date created_at xs) h.0 (All-sort P xs h.1)

  All-lt :
      (m n : ℕ) (ys : List A)
      → m < n
      → All (λ y. n < created_at y) ys
      → All (λ y. m < created_at y) ys
  All-lt m n [] lt h = tt
  All-lt m n (y ∷ ys) lt h = (omega arith, All-lt m n ys lt h.1)

  insert-IsStrict :
      (x : A) (ys : List A)
      → All (λ y. created_at x ≢ created_at y) ys
      → IsStrict ys
      → IsStrict (insert_sorted created_at x ys)
  unfolding insert_sorted
  insert-IsStrict x [] apart h = (tt, tt)
  insert-IsStrict x (y ∷ ys) apart h = elim (Bool-cases (leb (created_at x) (created_at y))) [
    | inl le ↦
        let first : created_at x < created_at y = ground (arith, apart.0) in
        rw le ((first, All-lt (created_at x) (created_at y) ys first h.0), h)
    | inr gt ↦ rw gt (
      All-insert created_at (λ z. created_at y < created_at z) x ys (ground arith) h.0,
      insert-IsStrict x ys apart.1 h.1,
    )
  ]

  pub sort_by_date-IsStrict : (xs : List A) → IsApart xs → IsStrict (sort_by_date created_at xs)
  unfolding sort_by_date
  sort_by_date-IsStrict [] h = tt
  sort_by_date-IsStrict (x ∷ xs) h =
      insert-IsStrict x (sort_by_date created_at xs)
        (All-sort (λ y. created_at x ≢ created_at y) xs h.0) (sort_by_date-IsStrict xs h.1)

  length-insert : (x : A) (ys : List A) → length (insert_sorted created_at x ys) ≡ suc (length ys)
  unfolding insert_sorted
  length-insert x [] = refl
  length-insert x (y ∷ ys) = ground (arith, length-insert x ys)

  pub length-sort : (xs : List A) → length (sort_by_date created_at xs) ≡ length xs
  unfolding sort_by_date
  length-sort [] = refl
  length-sort (x ∷ xs) =
      length-insert x (sort_by_date created_at xs) ∙ ap (λ n. suc n) (length-sort xs)

  All-date_at :
      (m : ℕ) (xs : List A) (i : ℕ)
      → All (λ y. m < created_at y) xs
      → i < length xs
      → m < date_at created_at xs i
  unfolding date_at
  All-date_at m [] i h lt = absurd (omega arith)
  All-date_at m (x ∷ xs) zero h lt = h.0
  All-date_at m (x ∷ xs) (suc i) h lt = All-date_at m xs i h.1 (omega arith)

  start_after-later :
      (m : ℕ) (xs : List A) → All (λ y. m < created_at y) xs → start_after created_at m xs ≡ 0
  unfolding start_after
  start_after-later m [] h = refl
  start_after-later m (x ∷ xs) h = ground arith

  -- A page that begins after the date of an entry begins at the entry behind it.
  pub start_after-date_at :
      (xs : List A) (i : ℕ)
      → IsStrict xs
      → i < length xs
      → start_after created_at (date_at created_at xs i) xs ≡ i + 1
  unfolding start_after date_at
  start_after-date_at [] i h lt = absurd (omega arith)
  start_after-date_at (x ∷ xs) zero h lt = ground (arith, start_after-later (created_at x) xs h.0)
  start_after-date_at (x ∷ xs) (suc i) h lt =
      ground (arith, start_after-date_at xs i h.1, All-date_at (created_at x) xs i h.0)

  All-date_at_le :
      (m : ℕ) (xs : List A) (i : ℕ)
      → All (λ y. m ≤ created_at y) xs
      → i < length xs
      → m ≤ date_at created_at xs i
  unfolding date_at
  All-date_at_le m [] i h lt = absurd (omega arith)
  All-date_at_le m (x ∷ xs) zero h lt = h.0
  All-date_at_le m (x ∷ xs) (suc i) h lt = All-date_at_le m xs i h.1 (omega arith)

  -- A page that begins after a date begins behind every entry of the date.
  pub start_after-gt :
      (m : ℕ) (xs : List A) (j : ℕ)
      → IsSorted created_at xs
      → j < length xs
      → date_at created_at xs j ≤ m
      → j < start_after created_at m xs
  unfolding start_after date_at
  start_after-gt m [] j h lt le = absurd (omega arith)
  start_after-gt m (x ∷ xs) zero h lt le = ground arith
  start_after-gt m (x ∷ xs) (suc j) h lt le =
      ground (arith, start_after-gt m xs j h.1, All-date_at_le (created_at x) xs j h.0)
