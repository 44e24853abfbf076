-- ===== src/Controller/Paginate.antt =====
-- `_paginate` of ember_csi/base.py, with `date_to_nano` and `nano_to_date` of ember_csi/common.py.
pub mod Order
pub mod Pages
use ember_csi.Base.{
  ℕ, zero, suc, ◌+◌, ◌-◌, String, Option, none, some, List, [], ◌∷◌, length, take, drop, ltb, leb,
  eqb, if◌then◌else◌,
}
use ember_csi.Base.Int.{ℤ, pos, negsuc}
use ember_csi.Rpc.{value_error, Outcome, ok, err}
use Prim.Native.Nat.{min}

-- Dates count microseconds, the resolution of `datetime`. The floats that lie between a date and
-- its token are a type of their own, with the operations that `common` applies to them; `parse` is
-- `float(text)`, and `from_timestamp` is `datetime.utcfromtimestamp` in UTC.
pub record FloatTime : Type 1 where
  pub Float : Type 0
  pub total_seconds : ℕ → Float
  pub times : Float → ℕ → Float
  pub over : Float → ℕ → Float
  pub int : Float → ℕ
  pub text : ℕ → String
  pub parse : String → Option Float
  pub from_timestamp : Float → ℕ

-- `constants.NANOSECONDS`
abbrev pub nanoseconds : ℕ
nanoseconds = 1000000000

module _ (ft : FloatTime) where
  open ft use {Float, total_seconds, times, over, int, text, parse, from_timestamp}

  unfoldable pub date_to_nano : ℕ → String
  date_to_nano date = text (int (times (total_seconds date) nanoseconds))

  -- `none` is a `ValueError`.
  unfoldable pub nano_to_date : String → Option ℕ
  nano_to_date token = elim (parse token) [
    | none ↦ none
    | some x ↦ some (from_timestamp (over x nanoseconds))
  ]

module _ {A : Type 0} (created_at : A → ℕ) where
  -- `sorted(resources, key=lambda res: res.created_at)`, a stable sort.
  unfoldable pub insert_sorted : A → List A → List A
  insert_sorted x [] = x ∷ []
  insert_sorted x (y ∷ ys) =
      if leb (created_at x) (created_at y) then x ∷ y ∷ ys else y ∷ insert_sorted x ys

  unfoldable pub sort_by_date : List A → List A
  sort_by_date [] = []
  sort_by_date (x ∷ xs) = insert_sorted x (sort_by_date xs)

  -- The loop over `enumerate(resources)`: the first index with a later date, or the length.
  unfoldable pub start_after : ℕ → List A → ℕ
  start_after marker [] = 0
  start_after marker (x ∷ xs) = if ltb marker (created_at x) then 0 else suc (start_after marker xs)

  -- The date of `resources[i]`, for an index in range.
  unfoldable pub date_at : List A → ℕ → ℕ
  date_at [] i = 0
  date_at (x ∷ xs) zero = created_at x
  date_at (x ∷ xs) (suc i) = date_at xs i

-- The part after `start` is known; `to_token` is `date_to_nano`.
unfoldable pub page_end : ℕ → ℕ → ℕ → ℕ
page_end max_entries start end = if eqb max_entries 0 then end else min (start + max_entries) end

module _ {A : Type 0} (created_at : A → ℕ) (to_token : ℕ → String) where
  unfoldable pub page_from : ℕ → ℕ → List A → List A × Option String
  page_from max_entries start resources =
      let end = page_end max_entries start (length resources) in
      if eqb start (length resources) then ([], none) else (
        take (end - start) (drop start resources),
        (if ltb end (length resources)
            then some (to_token (date_at created_at resources (end - 1)))
            else none),
      )

  -- With a negative `max_entries` of this amount: `islice` refuses a negative end, and selects nothing for an
  -- end before the start. The date of the index -1 is that of the last resource.
  abbrev date_before : ℕ → List A → ℕ
  date_before zero resources = date_at created_at resources (length resources - 1)
  date_before (suc i) resources = date_at created_at resources i

  unfoldable pub page_back : ℕ → ℕ → List A → Outcome (List A × Option String)
  page_back amount start resources =
      if eqb start (length resources)
      then ok ([], none)
      else if ltb start amount
      then err value_error
      else ok ([], some (to_token (date_before (start - amount) resources)))

  unfoldable pub page_by : ℤ → ℕ → List A → Outcome (List A × Option String)
  page_by (pos max_entries) start resources = ok (page_from max_entries start resources)
  page_by (negsuc n) start resources = page_back (suc n) start resources
