-- ===== src/Config/Names/Simple.antt =====
-- The names that `Config._get_names` of ember_csi/config.py gives a plugin with a simple name.
use ember_csi.Base.{
  ℕ, ◌≡◌, ◌≢◌, refl, ap, ◌∙◌, Bool, true, false, ◌&&◌, List, [], ◌∷◌, ◌++◌, length, length-append,
  eqb, leb, codes, All, arith, if◌then◌else◌,
}
use ember_csi.Rpc.{exited, ok, err}
use ember_csi.Config.Names.{
  Text, default_name, reverse_name, error_plugin_name, split_dots, is_part, is_label_char,
  all_chars, is_top, is_label, all_labels, drop_newline, reverse_parts, domain_parts, matches_name,
  join_dot, full_name, project_name, get_names,
}

-- A text of one line and with no dot.
abbrev pub IsSimple : Text → Type 0
IsSimple = All (λ (c : ℕ). (eqb c b'.' ≡ false) × (eqb c 10 ≡ false))

split_dots_simple : (p : Text) → IsSimple p → split_dots p ≡ p ∷ []
unfolding split_dots
split_dots_simple [] h = refl
split_dots_simple (c ∷ cs) ((dot, line), h) = rw (dot, split_dots_simple cs h) refl

split_dots-append : (a b : Text) → IsSimple a → split_dots (a ++ b'.' ∷ b) ≡ a ∷ split_dots b
unfolding split_dots
split_dots-append [] b h = refl
split_dots-append (c ∷ a) b ((dot, line), h) = rw (dot, split_dots-append a b h) refl

drop_newline_simple : (p : Text) → IsSimple p → drop_newline p ≡ p
unfolding drop_newline
drop_newline_simple [] h = refl
drop_newline_simple (c ∷ []) ((dot, line), h) = rw line refl
drop_newline_simple (c ∷ d ∷ cs) (one, h) =
    ap (λ (t : Text). c ∷ t) (drop_newline_simple (d ∷ cs) h)

drop_newline-append :
    (a : Text) (d : ℕ) (b : Text) → drop_newline (a ++ d ∷ b) ≡ a ++ drop_newline (d ∷ b)
unfolding drop_newline
drop_newline-append [] d b = refl
drop_newline-append (c ∷ []) d b = refl
drop_newline-append (c ∷ e ∷ a) d b = ap (λ (t : Text). c ∷ t) (drop_newline-append (e ∷ a) d b)

-- The name that a simple plugin name becomes a part of.
abbrev pub qualified : Bool → Text → Text
qualified reverse plugin =
    if reverse then reverse_name ++ b'.' ∷ plugin else plugin ++ b'.' ∷ default_name

reverse_split :
    (plugin : Text)
    → IsSimple plugin
    → split_dots (reverse_name ++ b'.' ∷ plugin) ≡ codes "io" ∷ codes "ember-csi" ∷ plugin ∷ []
unfolding split_dots
reverse_split plugin simple = rw (split_dots_simple plugin simple) refl

domain_split :
    (plugin : Text)
    → IsSimple plugin
    → split_dots (plugin ++ b'.' ∷ default_name) ≡ plugin ∷ codes "ember-csi" ∷ codes "io" ∷ []
domain_split plugin simple =
    split_dots-append plugin default_name simple
    ∙ ap (λ (ps : List Text). plugin ∷ ps) (unfold split_dots in refl)

labelled : (p : Text) → reverse_parts (codes "io" ∷ codes "ember-csi" ∷ p ∷ []) ≡ is_label p
unfolding reverse_parts is_top all_labels is_label all_chars
labelled p = ground arith

matches_reverse :
    (c : ℕ) (p : Text)
    → IsSimple (c ∷ p)
    → matches_name true (reverse_name ++ b'.' ∷ c ∷ p) ≡ is_label (c ∷ p)
unfolding matches_name
matches_reverse c p simple =
    let same : drop_newline (reverse_name ++ b'.' ∷ c ∷ p) ≡ reverse_name ++ b'.' ∷ c ∷ p =
      drop_newline-append reverse_name b'.' (c ∷ p)
      ∙ ap (λ (t : Text). reverse_name ++ t)
          (unfold drop_newline in
            ap (λ (t : Text). b'.' ∷ t) (drop_newline_simple (c ∷ p) simple)) in
    rw (same, reverse_split (c ∷ p) simple) (labelled (c ∷ p))

matches_domain :
    (plugin : Text)
    → IsSimple plugin
    → matches_name false (plugin ++ b'.' ∷ default_name) ≡ is_label plugin
unfolding matches_name
matches_domain plugin simple =
    let same : drop_newline (plugin ++ b'.' ∷ default_name) ≡ plugin ++ b'.' ∷ default_name =
      drop_newline-append plugin b'.' default_name
      ∙ ap (λ (t : Text). plugin ++ t) (unfold drop_newline in refl) in
    rw (same, domain_split plugin simple)
      (unfold domain_parts is_top is_label all_chars in ground arith)

-- A plugin name of one line, with no dot and without "ember-csi", is accepted exactly where it has at
-- most 50 characters and they are letters, digits and dashes; then it is a part of the plugin's name,
-- before or after the default one by the notation, and the project is named by it alone.
pub get_names_simple :
    (reverse : Bool) (plugin : Text)
    → IsSimple plugin
    → plugin ≢ []
    → is_part (codes "ember-csi") plugin ≡ false
    → get_names reverse plugin ≡ (
        if all_chars is_label_char plugin && leb (length plugin) 50
        then ok (qualified reverse plugin, plugin)
        else err (exited error_plugin_name))
unfolding get_names
get_names_simple reverse [] simple given other = absurd (given refl)
get_names_simple true (c ∷ p) simple given other =
    let name : full_name true (c ∷ p) ≡ reverse_name ++ b'.' ∷ c ∷ p =
      unfold full_name join_dot in rw other refl in
    let project : project_name true (c ∷ p) (reverse_name ++ b'.' ∷ c ∷ p) ≡ c ∷ p =
      unfold project_name in rw (reverse_split (c ∷ p) simple) refl in
    rw (name, matches_reverse c p simple, project) (unfold is_label in ground arith)
get_names_simple false (c ∷ p) simple given other =
    let name : full_name false (c ∷ p) ≡ c ∷ (p ++ b'.' ∷ default_name) =
      unfold full_name join_dot in rw other refl in
    let project : project_name false (c ∷ p) (c ∷ (p ++ b'.' ∷ default_name)) ≡ c ∷ p =
      unfold project_name in rw (domain_split (c ∷ p) simple) refl in
    rw (name, matches_domain (c ∷ p) simple, project)
      (unfold is_label in ground (arith, length-append p (b'.' ∷ default_name)))
