-- ===== src/Config/Version.antt =====
-- The specification's version in `Config.validate` of ember_csi/config.py, with the version numbers of
-- `distutils.version.StrictVersion`. Texts are lists of code points here.
use ember_csi.Base.{
  ℕ, ◌+◌, ◌*◌, ◌-◌, Bool, true, false, ◌&&◌, ◌||◌, Option, none, some, [], ◌∷◌, ◌++◌, eqb, leb,
  codes, if◌then◌else◌,
}
use ember_csi.Rpc.{exited, value_error, Outcome, ok, err}
use ember_csi.Csi.{SpecVersion, v0_2_0, v0_3_0, v1_0_0}
use ember_csi.Config.Names.{Text}

abbrev is_digit : ℕ → Bool
is_digit c = leb b'0' c && leb c b'9'

abbrev is_space : ℕ → Bool
is_space c = eqb c 32 || (leb 9 c && leb c 13)

-- `text.strip()`
unfoldable pub lstrip : Text → Text
lstrip [] = []
lstrip (c ∷ cs) = let rest = lstrip cs in if is_space c then rest else c ∷ cs

unfoldable pub rstrip : Text → Text
rstrip [] = []
rstrip (c ∷ cs) = elim (rstrip cs) [ [] ↦ if is_space c then [] else c ∷ [] | d ∷ ds ↦ c ∷ d ∷ ds ]

-- `\d*`, with the number that is read before and after, and the rest of the text.
unfoldable pub read_digits : ℕ → Text → ℕ × Text
read_digits n [] = (n, [])
read_digits n (c ∷ cs) =
    let more = read_digits (10 * n + (c - b'0')) cs in if is_digit c then more else (n, c ∷ cs)

-- `\d+`
unfoldable pub read_number : Text → Option (ℕ × Text)
unfolding read_digits
read_number [] = none
read_number (c ∷ cs) = if is_digit c then some (read_digits 0 (c ∷ cs)) else none

-- `([ab](\d+))?$`; the pre-release is not part of the version.
abbrev at_end : Option (ℕ × Text) → Bool
at_end none = false
at_end (some (n, [])) = true
at_end (some (n, _ ∷ _)) = false

unfoldable pub is_tail : Text → Bool
unfolding read_number
is_tail [] = true
is_tail (c ∷ cs) = (eqb c b'a' || eqb c b'b') && at_end (read_number cs)

abbrev with_tail : ℕ → ℕ → ℕ → Text → Option (ℕ × ℕ × ℕ)
with_tail major minor patch rest = if is_tail rest then some (major, minor, patch) else none

abbrev with_patch : ℕ → ℕ → Option (ℕ × Text) → Option (ℕ × ℕ × ℕ)
with_patch major minor none = none
with_patch major minor (some (patch, rest)) = with_tail major minor patch rest

abbrev after_minor : ℕ → ℕ → Text → Option (ℕ × ℕ × ℕ)
after_minor major minor [] = some (major, minor, 0)
after_minor major minor (c ∷ cs) =
    if eqb c b'.' then with_patch major minor (read_number cs) else with_tail major minor 0 (c ∷ cs)

abbrev with_minor : ℕ → Option (ℕ × Text) → Option (ℕ × ℕ × ℕ)
with_minor major none = none
with_minor major (some (minor, rest)) = after_minor major minor rest

abbrev after_major : ℕ → Text → Option (ℕ × ℕ × ℕ)
after_major major [] = none
after_major major (c ∷ cs) = if eqb c b'.' then with_minor major (read_number cs) else none

abbrev with_major : Option (ℕ × Text) → Option (ℕ × ℕ × ℕ)
with_major none = none
with_major (some (major, rest)) = after_major major rest

-- `StrictVersion(text).version`; `none` is a `ValueError`.
unfoldable pub strict_version : Text → Option (ℕ × ℕ × ℕ)
unfolding read_number is_tail
strict_version text = with_major (read_number text)

abbrev drop_v : Text → Text
drop_v [] = []
drop_v (c ∷ cs) = if eqb c b'v' then cs else c ∷ cs

abbrev has_dot : Text → Bool
has_dot [] = false
has_dot (c ∷ cs) = eqb c b'.' || has_dot cs

-- Spaces and the prefix 'v' are accepted, and a lone number stands for 'x.0'.
unfoldable pub normal_spec : Text → Text
unfolding lstrip rstrip
normal_spec text =
    let spec = drop_v (rstrip (lstrip text)) in if has_dot spec then spec else spec ++ codes ".0"

-- `constants.SUPPORTED_SPEC_VERSIONS`, as numbers.
abbrev version_number : SpecVersion → ℕ × ℕ × ℕ
version_number v0_2_0 = (0, 2, 0)
version_number v0_3_0 = (0, 3, 0)
version_number v1_0_0 = (1, 0, 0)

abbrev same_number : ℕ × ℕ × ℕ → ℕ × ℕ × ℕ → Bool
same_number (a, b, c) (d, e, f) = eqb a d && (eqb b e && eqb c f)

unfoldable pub supported : ℕ × ℕ × ℕ → Option SpecVersion
supported n =
    if same_number n (version_number v0_2_0)
    then some v0_2_0
    else if same_number n (version_number v0_3_0)
    then some v0_3_0
    else if same_number n (version_number v1_0_0)
    then some v1_0_0
    else none

-- `constants.ERROR_CSI_SPEC`
abbrev pub error_csi_spec : ℕ
error_csi_spec = 6

abbrev or_unsupported : Option SpecVersion → Outcome SpecVersion
or_unsupported none = err (exited error_csi_spec)
or_unsupported (some v) = ok v

abbrev or_invalid : Option (ℕ × ℕ × ℕ) → Outcome SpecVersion
or_invalid none = err value_error
or_invalid (some n) = or_unsupported (supported n)

unfoldable pub check_spec : Text → Outcome SpecVersion
unfolding normal_spec strict_version supported
check_spec text = or_invalid (strict_version (normal_spec text))

-- `StrictVersion(csi_version) < '1.0'`
abbrev pub is_reverse : SpecVersion → Bool
is_reverse v0_2_0 = true
is_reverse v0_3_0 = true
is_reverse v1_0_0 = false
