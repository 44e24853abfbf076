-- ===== src/Controller/List/Crawl/Skips.antt =====
-- A client that lists everything, page by page, where resources have the same date of creation.
use ember_csi.Base.{
  ℕ, zero, suc, ◌+◌, ◌-◌, ◌≤◌, ◌<◌, ◌≡◌, refl, ap, truthy, List, [], ◌∷◌, some, length, take, drop,
  length-append, length-take, ltb, eqb, Bool-cases, inl, inr, true, arith,
}
use ember_csi.Base.Int.{pos}
use ember_csi.Csi.{ListRequest}
use ember_csi.Controller.Paginate.{
  FloatTime, date_to_nano, nano_to_date, sort_by_date, start_after, date_at,
}
use ember_csi.Controller.Paginate.Order.{IsSorted, sort_by_date-IsSorted}
use ember_csi.Controller.Paginate.Pages.{start_after-gt, length-sort}
use ember_csi.Controller.List.Crawl.{
  crawl, crawl_sorted, crawl-sort, Starts, page_at, page_from-done, page_from-last, page_from-more,
  length-drop_le,
}

module _ {A : Type 0} (ft : FloatTime) (created_at : A → ℕ)
    (readable : (d : ℕ) → nano_to_date ft (date_to_nano ft d) ≡ some d)
    (nonempty : (d : ℕ) → truthy (date_to_nano ft d) ≡ true) where
  start_after_le : (m : ℕ) (xs : List A) → start_after created_at m xs ≤ length xs
  unfolding start_after
  start_after_le m [] = omega arith
  start_after_le m (x ∷ xs) = ground (arith, start_after_le m xs)

  -- A page that is not the last, and what follows it.
  crawl_sorted-more :
      (rounds : ℕ) (r : ListRequest) (m : ℕ) (xs : List A) (start : ℕ)
      → r.max_entries ≡ pos m
      → Starts ft created_at r xs start
      → start + m < length xs
      → 0 < m
      → ((t : ListRequest)
          → t.max_entries ≡ pos m
          → Starts ft created_at t xs
              (start_after created_at (date_at created_at xs (start + m - 1)) xs)
          → length (crawl_sorted ft created_at rounds t xs)
            ≤ length xs - start_after created_at (date_at created_at xs (start + m - 1)) xs)
      → length (crawl_sorted ft created_at (suc rounds) r xs)
        ≤ m + (length xs - start_after created_at (date_at created_at xs (start + m - 1)) xs)
  unfolding crawl_sorted
  crawl_sorted-more rounds r m xs start size at lt positive rest =
      let d = date_at created_at xs (start + m - 1) in
      let t : ListRequest = record r { starting_token = date_to_nano ft d } in
      let page = take m (drop start xs) in
      rw
        (
          page_at ft created_at readable nonempty r m xs start size at,
          page_from-more created_at (date_to_nano ft) m start xs lt positive,
        )
        (omega (
          arith,
          length-append page (crawl_sorted ft created_at rounds t xs),
          length-take m (drop start xs),
          rest t size (inr (nonempty d, (d, readable d, refl))),
        ))

  crawl_sorted_le :
      (rounds : ℕ) (r : ListRequest) (m : ℕ) (xs : List A) (start : ℕ)
      → r.max_entries ≡ pos m
      → Starts ft created_at r xs start
      → start ≤ length xs
      → 0 < m
      → IsSorted created_at xs
      → length (crawl_sorted ft created_at rounds r xs) ≤ length xs - start
  unfolding crawl_sorted
  crawl_sorted_le zero r m xs start size at le positive sorted = omega arith
  crawl_sorted_le (suc rounds) r m xs start size at le positive sorted =
      elim (Bool-cases (eqb start (length xs))) [
        | inl done ↦
            let over : start ≡ length xs = ground arith in
            rw
              (
                page_at ft created_at readable nonempty r m xs start size at,
                page_from-done created_at (date_to_nano ft) m start xs over,
              )
              (omega arith)
        | inr unfinished ↦ elim (Bool-cases (ltb (start + m) (length xs))) [
          | inl more ↦
              let lt : start + m < length xs = ground arith in
              let last = start + m - 1 in
              let next = start_after created_at (date_at created_at xs last) xs in
              let behind : last < next =
                start_after-gt created_at (date_at created_at xs last) xs last sorted (omega arith)
                  (omega arith) in
              let bound = crawl_sorted-more rounds r m xs start size at lt positive (λ t same go.
                crawl_sorted_le rounds t m xs next same go
                  (start_after_le (date_at created_at xs last) xs) positive sorted) in
              omega (arith, bound, behind, start_after_le (date_at created_at xs last) xs)
          | inr few ↦
              let lt : start < length xs = ground (arith) in
              rw
                (
                  page_at ft created_at readable nonempty r m xs start size at,
                  page_from-last created_at (date_to_nano ft) m start xs lt (ground arith) positive,
                )
                (omega (arith, length-drop_le start xs))
        ]
      ]

  -- Where the first page, of a positive size, ends between two resources of the same date of creation, a client
  -- that follows the tokens never gets everything, however many pages it asks for, if a token is read back
  -- as the date that it was written for.
  pub crawl_lt :
      (rounds max_entries : ℕ) (xs : List A)
      → 0 < max_entries
      → max_entries < length xs
      → date_at created_at (sort_by_date created_at xs) max_entries
        ≡ date_at created_at (sort_by_date created_at xs) (max_entries - 1)
      → length (
          crawl ft created_at rounds
            (record { max_entries = pos max_entries; starting_token = "" })
            xs)
        < length xs
  unfolding crawl
  crawl_lt zero m xs positive lt same = omega arith
  crawl_lt (suc rounds) m xs positive lt same =
      let r : ListRequest = record { max_entries = pos m; starting_token = "" } in
      let ys = sort_by_date created_at xs in
      let zero_add : 0 + m - 1 ≡ m - 1 = omega arith in
      let sorted = (sort_by_date-IsSorted created_at xs).0 in
      let d = date_at created_at ys (0 + m - 1) in
      let next = start_after created_at d ys in
      let behind : m < next =
        start_after-gt created_at d ys m sorted (omega (arith, length-sort created_at xs))
          (omega (arith, same, ap (date_at created_at ys) zero_add)) in
      let bound =
        crawl_sorted-more rounds r m ys 0 refl (inl (refl, refl))
          (omega (arith, length-sort created_at xs)) positive
          (λ t e go.
            crawl_sorted_le rounds t m ys next e go (start_after_le d ys) positive sorted) in
      rw (crawl-sort ft created_at (suc rounds) r xs)
        (omega (arith, bound, behind, start_after_le d ys, length-sort created_at xs))
