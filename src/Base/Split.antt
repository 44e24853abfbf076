-- ===== src/Base/Split.antt =====
-- Python's `str.split`.
use Prim.Native.Nat.{ℕ}
use Prim.Native.Char.{Char, code}
use mathlib.Core.Bool.{Bool, true, false, ◌&&◌, ◌||◌}
use mathlib.Core.List.{List, [], ◌∷◌}
use ember_csi.Base.Compare.{eqb, leb, if◌then◌else◌}
use ember_csi.Base.Text.{String, ◌<>◌, truthy}

-- `split_by sep "" s` are the parts of `s` between the separators.
abbrev is_space : ℕ → Bool
is_space c = eqb c 32 || (leb 9 c && leb c 13)

abbrev push : Char → String → String
push c s = s <> String.◌∷◌ c String.[]

abbrev pub split_by : (ℕ → Bool) → String → String → List String
split_by sep cur String.[] = cur ∷ []
split_by sep cur (String.◌∷◌ c s) = elim (sep (code c)) [
  | true ↦ cur ∷ split_by sep "" s
  | false ↦ split_by sep (push c cur) s
]

abbrev pub nonempty : List String → List String
nonempty [] = []
nonempty (s ∷ ss) = let rest = nonempty ss in if truthy s then s ∷ rest else rest

-- `text.split()` with the empty parts filtered out, `text.split(',')` and `text.split('\n')`
abbrev pub words : String → List String
words s = nonempty (split_by is_space "" s)

abbrev pub commas : String → List String
commas s = split_by (λ c. eqb c b',') "" s

abbrev pub lines : String → List String
lines s = split_by (λ c. eqb c b'\n') "" s
