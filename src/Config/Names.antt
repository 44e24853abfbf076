-- ===== src/Config/Names.antt =====
-- `Config._get_names` of ember_csi/config.py. Texts are lists of code points here.
pub mod Simple
use ember_csi.Base.{
  ℕ, ◌-◌, Bool, true, false, not, ◌&&◌, ◌||◌, List, [], ◌∷◌, ◌++◌, length, eqb, leb, ltb, codes,
  if◌then◌else◌,
}
use ember_csi.Rpc.{exited, Outcome, ok, err}

abbrev pub Text : Type 0
Text = List ℕ

-- `defaults.NAME`, `defaults.REVERSE_NAME` and `constants.ERROR_PLUGIN_NAME`
abbrev pub default_name : Text
default_name = codes "ember-csi.io"

abbrev pub reverse_name : Text
reverse_name = codes "io.ember-csi"

abbrev pub error_plugin_name : ℕ
error_plugin_name = 11

-- `text.split('.')`
abbrev pub add_to_first : ℕ → List Text → List Text
add_to_first c [] = (c ∷ []) ∷ []
add_to_first c (p ∷ ps) = (c ∷ p) ∷ ps

unfoldable pub split_dots : Text → List Text
split_dots [] = [] ∷ []
split_dots (c ∷ cs) =
    let rest = split_dots cs in if eqb c b'.' then [] ∷ rest else add_to_first c rest

-- `text.startswith(prefix)` and `part in text`
unfoldable pub is_prefix : Text → Text → Bool
is_prefix [] text = true
is_prefix (a ∷ as') [] = false
is_prefix (a ∷ as') (c ∷ cs) = eqb a c && is_prefix as' cs

unfoldable pub is_part : Text → Text → Bool
unfolding is_prefix
is_part part [] = is_prefix part []
is_part part (c ∷ cs) = is_prefix part (c ∷ cs) || is_part part cs

-- `[A-Za-z]`, `[A-Za-z0-9-]`
abbrev pub is_letter : ℕ → Bool
is_letter c = (leb b'A' c && leb c b'Z') || (leb b'a' c && leb c b'z')

abbrev pub is_label_char : ℕ → Bool
is_label_char c = is_letter c || ((leb b'0' c && leb c b'9') || eqb c b'-')

unfoldable pub all_chars : (ℕ → Bool) → Text → Bool
all_chars test [] = true
all_chars test (c ∷ cs) = test c && all_chars test cs

-- `[A-Za-z]{2,6}`, `[A-Za-z0-9-]{1,63}`
unfoldable pub is_top : Text → Bool
is_top p = all_chars is_letter p && (leb 2 (length p) && leb (length p) 6)

unfoldable pub is_label : Text → Bool
is_label p = all_chars is_label_char p && (leb 1 (length p) && leb (length p) 63)

unfoldable pub all_labels : List Text → Bool
unfolding is_label
all_labels [] = true
all_labels (p ∷ ps) = is_label p && all_labels ps

-- `$` also matches before a newline at the end.
unfoldable pub drop_newline : Text → Text
drop_newline [] = []
drop_newline (c ∷ []) = if eqb c 10 then [] else c ∷ []
drop_newline (c ∷ d ∷ cs) = c ∷ drop_newline (d ∷ cs)

-- `^[A-Za-z]{2,6}(\.[A-Za-z0-9-]{1,63})+$`, by the parts between the dots.
unfoldable pub reverse_parts : List Text → Bool
unfolding is_top all_labels
reverse_parts [] = false
reverse_parts (p ∷ []) = false
reverse_parts (p ∷ q ∷ qs) = is_top p && all_labels (q ∷ qs)

-- `^([A-Za-z0-9-]{1,63}\.)+?[A-Za-z]{2,6}$`
unfoldable pub domain_parts : List Text → Bool
unfolding is_top is_label
domain_parts [] = false
domain_parts (p ∷ []) = false
domain_parts (p ∷ q ∷ []) = is_label p && is_top q
domain_parts (p ∷ q ∷ r ∷ ps) = is_label p && domain_parts (q ∷ r ∷ ps)

unfoldable pub matches_name : Bool → Text → Bool
matches_name reverse name =
    if reverse
    then reverse_parts (split_dots (drop_newline name))
    else domain_parts (split_dots (drop_newline name))

-- `'.'.join(filter(None, (a, b)))`
unfoldable pub join_dot : Text → Text → Text
join_dot [] b = b
join_dot (c ∷ a) [] = c ∷ a
join_dot (c ∷ a) (d ∷ b) = (c ∷ a) ++ b'.' ∷ d ∷ b

unfoldable pub full_name : Bool → Text → Text
full_name reverse plugin =
    if is_part (codes "ember-csi") plugin
    then plugin
    else if reverse
    then join_dot reverse_name plugin
    else join_dot plugin default_name

abbrev pub first_part : List Text → Text
first_part [] = []
first_part (p ∷ ps) = p

abbrev pub last_part : List Text → Text
last_part [] = []
last_part (p ∷ []) = p
last_part (p ∷ q ∷ ps) = last_part (q ∷ ps)

-- `name.split('.')[-1 if reverse else 0]`, or 'default' for an empty plugin name.
unfoldable pub project_name : Bool → Text → Text → Text
project_name reverse [] name = codes "default"
project_name reverse (c ∷ plugin) name =
    if reverse then last_part (split_dots name) else first_part (split_dots name)

-- The names of the plugin and of the project; `exit(n)` is the fault `exited n`.
unfoldable pub get_names : Bool → Text → Outcome (Text × Text)
get_names reverse plugin =
    let name = full_name reverse plugin in
    if ltb 63 (length name)
    then err (exited error_plugin_name)
    else if not (matches_name reverse name)
    then err (exited error_plugin_name)
    else ok (name, project_name reverse plugin name)
