-- ===== src/Controller/List/Crawl.antt =====
-- A client that lists everything, page by page, through `_paginate` of ember_csi/base.py.
pub mod Skips
use ember_csi.Base.{
  ℕ, zero, suc, ◌+◌, ◌-◌, ◌≤◌, ◌<◌, ◌≡◌, refl, sym, ap, fun_ext, ◌∙◌, String, truthy, List, [], ◌∷◌,
  ◌++◌, Option, none, some, length, take, drop, ltb, eqb, Bool-cases, inl, inr, ◌⊎◌, true, false,
  arith, take-append-drop,
}
use ember_csi.Base.Int.{pos}
use ember_csi.Rpc.{Outcome, ok, err}
use ember_csi.Csi.{ListRequest}
use ember_csi.Controller.Paginate.{
  FloatTime, date_to_nano, nano_to_date, sort_by_date, start_after, date_at, page_end, page_from,
  page_by,
}
use mathlib.Core.List.{Perm}
use ember_csi.Controller.Paginate.Order.{sort_by_date-IsSorted}
use ember_csi.Controller.Paginate.Pages.{
  IsStrict, IsApart, start_after-date_at, sort_by_date-IsStrict, length-sort,
}
use ember_csi.Controller.List.{from_marker, page_of_sorted, paginate}

suc_add : (n m : ℕ) → suc (n + m) ≡ suc n + m
suc_add n m = omega arith

module _ {A : Type 0} where
  drop-nil : (n : ℕ) → ◌≡◌ {A = List A} (drop n []) []
  drop-nil zero = refl
  drop-nil (suc n) = refl

  drop-drop : (m n : ℕ) (xs : List A) → drop m (drop n xs) ≡ drop (n + m) xs
  drop-drop m zero xs = ap (λ k. drop k xs) (omega arith)
  drop-drop m (suc n) [] = drop-nil m ∙ sym (drop-nil (suc n + m))
  drop-drop m (suc n) (x ∷ xs) = drop-drop m n xs ∙ ap (λ k. drop k (x ∷ xs)) (suc_add n m)

  take_all : (n : ℕ) (xs : List A) → length xs ≤ n → take n xs ≡ xs
  take_all zero [] h = refl
  take_all zero (x ∷ xs) h = absurd (omega arith)
  take_all (suc n) [] h = refl
  take_all (suc n) (x ∷ xs) h = ap (λ ys. x ∷ ys) (take_all n xs (omega arith))

  drop_all : (n : ℕ) (xs : List A) → length xs ≤ n → drop n xs ≡ []
  drop_all zero [] h = refl
  drop_all zero (x ∷ xs) h = absurd (omega arith)
  drop_all (suc n) [] h = refl
  drop_all (suc n) (x ∷ xs) h = drop_all n xs (omega arith)

  pub length-drop_le : (n : ℕ) (xs : List A) → length (drop n xs) ≡ length xs - n
  length-drop_le zero xs = omega arith
  length-drop_le (suc n) [] = omega arith
  length-drop_le (suc n) (x ∷ xs) = omega (arith, length-drop_le n xs)

  -- What a client does with an answer: it asks for the page behind the token, if there is one.
  abbrev follow : Outcome (List A × Option String) → (String → List A) → List A
  follow (ok (page, none)) more = page
  follow (ok (page, some t)) more = page ++ more t
  follow (err e) more = []

module _ {A : Type 0} (created_at : A → ℕ) (to_token : ℕ → String) (m start : ℕ) (xs : List A) where
  pub page_from-done : start ≡ length xs → page_from created_at to_token m start xs ≡ ([], none)
  unfolding page_from
  page_from-done e = ground arith

  pub page_from-last :
      start < length xs
      → length xs ≤ start + m
      → 0 < m
      → page_from created_at to_token m start xs ≡ (drop start xs, none)
  unfolding page_from page_end
  page_from-last lt le positive =
      ground (arith, take_all (length xs - start) (drop start xs), length-drop_le start xs)

  pub page_from-more :
      start + m < length xs
      → 0 < m
      → page_from created_at to_token m start xs
        ≡ (take m (drop start xs), some (to_token (date_at created_at xs (start + m - 1))))
  unfolding page_from page_end
  page_from-more lt positive = ground arith

module _ {A : Type 0} (ft : FloatTime) (created_at : A → ℕ) where
  -- A client that follows the tokens, for at most this many pages.
  unfoldable pub crawl : ℕ → ListRequest → List A → List A
  crawl zero r xs = []
  crawl (suc rounds) r xs =
      let more = λ (t : String). crawl rounds (record r { starting_token = t }) xs in
      follow (paginate ft created_at r xs tt).0 more

  -- The same over resources that are sorted already.
  unfoldable pub crawl_sorted : ℕ → ListRequest → List A → List A
  crawl_sorted zero r xs = []
  crawl_sorted (suc rounds) r xs =
      let more = λ (t : String). crawl_sorted rounds (record r { starting_token = t }) xs in
      follow (page_of_sorted ft created_at r xs tt).0 more

  pub crawl-sort :
      (rounds : ℕ) (r : ListRequest) (xs : List A)
      → crawl rounds r xs ≡ crawl_sorted rounds r (sort_by_date created_at xs)
  unfolding crawl crawl_sorted paginate
  crawl-sort zero r xs = refl
  crawl-sort (suc rounds) r xs =
      ap (follow (page_of_sorted ft created_at r (sort_by_date created_at xs) tt).0)
        (fun_ext λ t. crawl-sort rounds (record r { starting_token = t }) xs)

  -- The request is for the page that begins at the index `start`.
  abbrev pub Starts : ListRequest → List A → ℕ → Type 0
  Starts r xs start =
      ((truthy r.starting_token ≡ false) × (start ≡ 0))
      ⊎ ((truthy r.starting_token ≡ true)
          × ((d : ℕ) × (nano_to_date ft r.starting_token ≡ some d)
              × (start_after created_at d xs ≡ start)))

  module _ (readable : (d : ℕ) → nano_to_date ft (date_to_nano ft d) ≡ some d)
      (nonempty : (d : ℕ) → truthy (date_to_nano ft d) ≡ true) where
    pub page_at :
        (r : ListRequest) (m : ℕ) (xs : List A) (start : ℕ)
        → r.max_entries ≡ pos m
        → Starts r xs start
        → (page_of_sorted ft created_at r xs tt).0
          ≡ ok (page_from created_at (date_to_nano ft) m start xs)
    unfolding page_of_sorted from_marker page_by
    page_at r m xs start size (inl (empty, zero_start)) = ground arith
    page_at r m xs start size (inr (full, (d, read, at))) = ground arith

    crawl_sorted-drop :
        (rounds : ℕ) (r : ListRequest) (m : ℕ) (xs : List A) (start : ℕ)
        → r.max_entries ≡ pos m
        → Starts r xs start
        → start ≤ length xs
        → length xs - start < rounds
        → 0 < m
        → IsStrict created_at xs
        → crawl_sorted rounds r xs ≡ drop start xs
    unfolding crawl_sorted
    crawl_sorted-drop zero r m xs start size at le enough positive strict = absurd (omega arith)
    crawl_sorted-drop (suc rounds) r m xs start size at le enough positive strict =
        elim (Bool-cases (eqb start (length xs))) [
          | inl done ↦
              let over : start ≡ length xs = ground arith in
              rw
                (
                  page_at r m xs start size at,
                  page_from-done created_at (date_to_nano ft) m start xs over,
                )
                (sym (drop_all start xs (omega arith)))
          | inr unfinished ↦ elim (Bool-cases (ltb (start + m) (length xs))) [
            | inl more ↦
                let lt : start + m < length xs = ground arith in
                let last = start + m - 1 in
                let token = date_to_nano ft (date_at created_at xs last) in
                let next : start_after created_at (date_at created_at xs last) xs ≡ start + m =
                  start_after-date_at created_at xs last strict (omega arith) ∙ omega arith in
                let rest : crawl_sorted rounds (record r { starting_token = token }) xs
                    ≡ drop (start + m) xs =
                  crawl_sorted-drop rounds (record r { starting_token = token }) m xs (start + m)
                    size (inr (nonempty _, (date_at created_at xs last, readable _, next)))
                    (omega arith) (omega arith) positive strict in
                rw
                  (
                    page_at r m xs start size at,
                    page_from-more created_at (date_to_nano ft) m start xs lt positive,
                  )
                  (ap (λ ys. take m (drop start xs) ++ ys) (rest ∙ sym (drop-drop m start xs))
                    ∙ take-append-drop m (drop start xs))
            | inr few ↦
                let lt : start < length xs = ground (arith) in
                rw
                  (
                    page_at r m xs start size at,
                    page_from-last created_at (date_to_nano ft) m start xs lt (ground arith)
                        positive,
                  )
                  refl
          ]
        ]

    -- A client that follows the tokens gets every resource exactly once, in the order of their dates,
    -- whatever the positive size of the pages and whatever order the resources come in, if no two of them have the
    -- same date of creation and a token is read back as the date that it was written for.
    pub crawl-all :
        (max_entries : ℕ) (xs : List A)
        → 0 < max_entries
        → IsApart created_at xs
        → Perm
            (crawl
              (suc (length xs))
              (record { max_entries = pos max_entries; starting_token = "" })
              xs)
            xs
          × IsStrict created_at (
              crawl
                (suc (length xs))
                (record { max_entries = pos max_entries; starting_token = "" })
                xs)
    crawl-all max_entries xs positive apart =
        let r : ListRequest = record { max_entries = pos max_entries; starting_token = "" } in
        let ys = sort_by_date created_at xs in
        let strict = sort_by_date-IsStrict created_at xs apart in
        let same : crawl (suc (length xs)) r xs ≡ ys =
          crawl-sort (suc (length xs)) r xs
          ∙ crawl_sorted-drop (suc (length xs)) r max_entries ys 0 refl (inl (refl, refl))
              (omega arith) (omega (arith, length-sort created_at xs)) positive strict in
        rw same ((sort_by_date-IsSorted created_at xs).1, strict)
