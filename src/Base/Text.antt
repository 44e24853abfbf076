-- ===== src/Base/Text.antt =====
-- Texts as native strings: Python's `==`, `in`, `startswith` and membership in a collection.
use Prim.Native.Nat.{ℕ, compare as compare_nat}
use Prim.Native.Char.{code}
use Prim.Native.String.{find, len}
use mathlib.Core.Bool.{Bool, false, ◌||◌, not}
use mathlib.Core.List.{List, [], ◌∷◌}
use text.Mathlib.Text.{is_le}
pub use Prim.Native.String.{String, ◌++◌ as ◌<>◌}
pub use text.Mathlib.Text.{◌==◌, starts_with}
pub use text.Mathlib.TextEquality.{eq_iff}
pub use text.Mathlib.TextPositions.{eq_refl}

-- `t in s` for two texts.
abbrev pub has_infix : String → String → Bool
has_infix s t = is_le (compare_nat (find s t) (len s))

-- The code points of a text.
abbrev pub codes : String → List ℕ
codes String.[] = []
codes (String.◌∷◌ c s) = code c ∷ codes s

-- `s in collection`.
abbrev pub elem : String → List String → Bool
elem s [] = false
elem s (t ∷ ts) = (s == t) || elem s ts

-- The truth value of a text.
abbrev pub truthy : String → Bool
truthy s = not (s == "")

-- `sep.join(parts)`.
abbrev pub join : String → List String → String
join sep [] = ""
join sep (s ∷ []) = s
join sep (s ∷ t ∷ ts) = s <> (sep <> join sep (t ∷ ts))
