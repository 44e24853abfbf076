-- ===== src/Base/Case.antt =====
-- The case of the letters of ASCII in a text: Python's `str.lower`, `str.upper` and `str.title`.
use Prim.Native.Nat.{ℕ, zero, suc, ◌-◌}
use Prim.Native.Char.{Char, code}
use Prim.Native.String.{String}
use mathlib.Core.Bool.{Bool, false, ◌&&◌, ◌||◌}
use ember_csi.Base.Compare.{leb, if◌then◌else◌}

-- `str.lower`, on the letters of ASCII.
abbrev pub letter_at : String → ℕ → Char → Char
letter_at String.[] i c = c
letter_at (String.◌∷◌ a s) zero c = a
letter_at (String.◌∷◌ a s) (suc i) c = letter_at s i c

abbrev pub lower_char : Char → Char
lower_char c =
    if leb 65 (code c) && leb (code c) 90
    then letter_at "abcdefghijklmnopqrstuvwxyz" (code c - 65) c
    else c

abbrev pub lower : String → String
lower String.[] = ""
lower (String.◌∷◌ c s) = String.◌∷◌ (lower_char c) (lower s)

-- `str.upper`, on the letters of ASCII.
abbrev upper_char : Char → Char
upper_char c =
    if leb 97 (code c) && leb (code c) 122
    then letter_at "ABCDEFGHIJKLMNOPQRSTUVWXYZ" (code c - 97) c
    else c

abbrev pub upper : String → String
upper String.[] = ""
upper (String.◌∷◌ c s) = String.◌∷◌ (upper_char c) (upper s)

-- `str.title`: the first letter of each word is upper, the others are lower.
abbrev is_letter : ℕ → Bool
is_letter c = (leb 65 c && leb c 90) || (leb 97 c && leb c 122)

abbrev title_from : Bool → String → String
title_from inside String.[] = ""
title_from inside (String.◌∷◌ c s) =
    String.◌∷◌ (if inside then lower_char c else upper_char c) (title_from (is_letter (code c)) s)

abbrev pub title : String → String
title s = title_from false s
