-- ===== src/Examples/Pages.antt =====
-- Pages of a list of dates.
use ember_csi.Base.{
  ℕ, zero, suc, ap, ◌==◌, Bool-cases, inl, inr, truthy, eq_iff, ◌*◌, ◌/◌, ◌<◌, ◌≡◌, refl, String,
  List, length, Option, some, none, [], ◌∷◌, arith, true,
}
use ember_csi.Controller.Paginate.{FloatTime, date_to_nano, nano_to_date, date_at}
use mathlib.Core.List.{Perm}
use ember_csi.Base.Int.{pos}
use ember_csi.Controller.Paginate.{insert_sorted, sort_by_date}
use ember_csi.Controller.Paginate.Pages.{IsStrict}
use ember_csi.Controller.List.Crawl.Skips.{crawl_lt}
use ember_csi.Controller.List.Crawl.{crawl, crawl-all}

abbrev date : ℕ → ℕ
date n = n

-- Times as exact numbers, and their texts in unary: one character, and one more for each unit.
abbrev unary : ℕ → String
unary zero = "x"
unary (suc n) = String.◌∷◌ "x" (unary n)

abbrev count_chars : String → ℕ
count_chars String.[] = 0
count_chars (String.◌∷◌ c t) = suc (count_chars t)

abbrev read_unary : String → Option ℕ
read_unary String.[] = none
read_unary (String.◌∷◌ c t) = some (count_chars t)

count_chars-unary : (n : ℕ) → count_chars (unary n) ≡ suc n
count_chars-unary zero = refl
count_chars-unary (suc n) = ap suc (count_chars-unary n)

read_unary-unary : (n : ℕ) → read_unary (unary n) ≡ some n
read_unary-unary zero = refl
read_unary-unary (suc n) = ap some (count_chars-unary n)

unary_nonempty : (n : ℕ) → truthy (unary n) ≡ true
unary_nonempty n = elim (Bool-cases (unary n == "")) [
  | inl same ↦
      absurd (omega (arith, count_chars-unary n, ap count_chars ((eq_iff (unary n) "").0 same)))
  | inr other ↦ rw other
]

abbrev exact : FloatTime
exact = record {
  Float = ℕ;
  total_seconds = λ d. d;
  times = λ x n. x * n;
  over = λ x n. x / n;
  int = λ x. x;
  text = unary;
  parse = read_unary;
  from_timestamp = λ x. x;
}

exact_readable : (d : ℕ) → nano_to_date exact (date_to_nano exact d) ≡ some d
unfolding nano_to_date date_to_nano
exact_readable d = rw (read_unary-unary (d * 1000000000), nano_to_date) (ap some (omega arith))

abbrev pages_of_two : List ℕ → List ℕ
pages_of_two xs =
    crawl exact date (suc (length xs)) (record { max_entries = pos 2; starting_token = "" }) xs

crawl-all_example :
    Perm (pages_of_two (9 ∷ 3 ∷ 5 ∷ [])) (9 ∷ 3 ∷ 5 ∷ [])
    × IsStrict date (pages_of_two (9 ∷ 3 ∷ 5 ∷ []))
unfolding date_to_nano
crawl-all_example =
    crawl-all exact date exact_readable (λ d. unary_nonempty (d * 1000000000)) 2 (9 ∷ 3 ∷ 5 ∷ [])
      (omega arith) (omega arith)

-- Of four resources of which two have the same date, the second of them is not listed.
crawl_lt_example : length (pages_of_two (5 ∷ 3 ∷ 9 ∷ 5 ∷ [])) < 4
unfolding date_at sort_by_date insert_sorted date_to_nano
crawl_lt_example =
    crawl_lt exact date exact_readable (λ d. unary_nonempty (d * 1000000000)) 5 2
      (5 ∷ 3 ∷ 9 ∷ 5 ∷ []) (omega arith) (omega arith) refl
