-- ===== src/Topology/Configured.antt =====
-- The hierarchy that `_init_topology` of ember_csi/base.py builds, as `_topology_is_accessible` reads
-- it, where all configured topologies list the same segments in the same order.
use ember_csi.Base.{
  ℕ, zero, suc, ◌<◌, ◌≡◌, refl, sym, ap, subst, ◌∙◌, String, ◌==◌, eq_iff, eq_refl, elem, Bool,
  true, false, ◌&&◌, ◌||◌, none, some, List, [], ◌∷◌, length, All, Option-cases, Bool-cases, inl,
  inr, arith, if◌then◌else◌,
}
use ember_csi.Base.Dict
use ember_csi.Base.Dict.{lookup}
use ember_csi.Csi.{Topology, Level, Values, no_segments, segment, no_values, value}
use ember_csi.Topology.Hierarchy.{
  update_segment, update_value, add_topology, build_hierarchy, init_topology, find_value,
}
use ember_csi.Topology.Accessible.{
  pick_segment, remove, segment_value, verdict, walk, is_accessible,
}

abbrev AllValues : (Level → Type 0) → Values → Type 0
AllValues P no_values = Unit
AllValues P (value v l vs) = P l × AllValues P vs

-- A hierarchy with one segment for each level, of the given names.
abbrev IsUniform : List String → Level → Type 0
IsUniform [] no_segments = Unit
IsUniform [] (segment n vs l) = ⊥
IsUniform (m ∷ ms) no_segments = ⊥
IsUniform (m ∷ ms) (segment n vs l) = (n ≡ m) × (l ≡ no_segments) × AllValues (IsUniform ms) vs

-- Two topologies over the same segments have the same values.
abbrev pub same_values : Topology → Topology → Bool
same_values [] t = true
same_values (e ∷ s) [] = false
same_values ((_, v) ∷ s) ((_, u) ∷ t) = v == u && same_values s t

abbrev pub is_configured : Topology → List Topology → Bool
is_configured t [] = false
is_configured t (x ∷ ts) = same_values t x || is_configured t ts

-- The path of a topology through a uniform hierarchy.
abbrev in_values : (Level → Bool) → String → Values → Bool
in_values f v no_values = false
in_values f v (value u l vs) = if u == v then f l else in_values f v vs

abbrev has_path : Topology → Level → Bool
has_path [] l = true
has_path ((n, v) ∷ t) no_segments = false
has_path ((n, v) ∷ t) (segment m vs l) = in_values (has_path t) v vs

has_path-fresh :
    (t x : Topology)
    → Dict.keys t ≡ Dict.keys x
    → has_path t (add_topology x no_segments) ≡ same_values t x
unfolding add_topology update_segment update_value
has_path-fresh [] x h = refl
has_path-fresh ((n, v) ∷ t) [] h = refl
has_path-fresh ((n, v) ∷ t) ((m, u) ∷ x) h =
    ground (arith, eq_iff v u, eq_iff u v, has_path-fresh t x)

IsUniform-fresh : (x : Topology) → IsUniform (Dict.keys x) (add_topology x no_segments)
unfolding add_topology update_segment update_value
IsUniform-fresh [] = tt
IsUniform-fresh ((n, v) ∷ x) = (refl, refl, (IsUniform-fresh x, tt))

-- Adding a topology to the values of a level: the value is found where the new topology has it.
in_values-update :
    (f : Level → Bool) (g : Level → Level) (d : Bool) (P : Level → Type 0) (v u : String)
    (vs : Values)
    → f (g no_segments) ≡ d
    → ((l : Level) → P l → f (g l) ≡ (d || f l))
    → AllValues P vs
    → in_values f v (update_value u g vs) ≡ (((v == u) && d) || in_values f v vs)
unfolding update_value
in_values-update f g d P v u no_values fresh step h = ground (arith, eq_iff u v, eq_iff v u)
in_values-update f g d P v u (value x l vs) fresh step h = ground (
  arith,
  eq_iff u v,
  eq_iff v u,
  eq_iff x u,
  eq_iff x v,
  step l h.0,
  in_values-update f g d P v u vs fresh step h.1,
)

AllValues-update :
    (P : Level → Type 0) (g : Level → Level) (u : String) (vs : Values)
    → P (g no_segments)
    → ((l : Level) → P l → P (g l))
    → AllValues P vs
    → AllValues P (update_value u g vs)
unfolding update_value
AllValues-update P g u no_values fresh step h = (fresh, tt)
AllValues-update P g u (value x l vs) fresh step h = elim (Bool-cases (x == u)) [
  | inl same ↦ rw same (step l h.0, h.1)
  | inr other ↦ rw other (h.0, AllValues-update P g u vs fresh step h.1)
]

keys_tail : (n m : String) (s t : List String) → ◌≡◌ {A = List String} (n ∷ s) (m ∷ t) → s ≡ t
keys_tail n m s t h = cc

has_path-add :
    (t x : Topology) (l : Level)
    → Dict.keys t ≡ Dict.keys x
    → IsUniform (Dict.keys x) l
    → has_path t (add_topology x l) ≡ (same_values t x || has_path t l)
unfolding add_topology update_segment
has_path-add [] x l h un = refl
has_path-add ((n, v) ∷ t) [] l h un = absurd (cc)
has_path-add ((n, v) ∷ t) ((m, u) ∷ x) no_segments h un = absurd un
has_path-add ((n, v) ∷ t) ((m, u) ∷ x) (segment k vs rest) h un =
    let tails : Dict.keys t ≡ Dict.keys x = keys_tail n m (Dict.keys t) (Dict.keys x) h in
    rw ((eq_iff k m).1 un.0) (
      in_values-update (has_path t) (add_topology x) (same_values t x) (IsUniform (Dict.keys x)) v u
        vs (has_path-fresh t x tails) (λ l p. has_path-add t x l tails p) un.2)

IsUniform-add :
    (x : Topology) (l : Level)
    → IsUniform (Dict.keys x) l
    → IsUniform (Dict.keys x) (add_topology x l)
unfolding add_topology update_segment
IsUniform-add [] l un = un
IsUniform-add ((n, v) ∷ x) no_segments un = absurd un
IsUniform-add ((n, v) ∷ x) (segment k vs rest) un = rw ((eq_iff k n).1 un.0) (
  un.0,
  un.1,
  AllValues-update (IsUniform (Dict.keys x)) (add_topology x) v vs (IsUniform-fresh x)
      (IsUniform-add x) un.2,
)

abbrev pub HasKeys : List String → Topology → Type 0
HasKeys ks t = Dict.keys t ≡ ks

has_path-build :
    (ks : List String) (t : Topology) (ts : List Topology) (l : Level)
    → HasKeys ks t
    → All (HasKeys ks) ts
    → IsUniform ks l
    → (has_path t (build_hierarchy ts l) ≡ (has_path t l || is_configured t ts))
      × IsUniform ks (build_hierarchy ts l)
unfolding build_hierarchy
has_path-build ks t [] l kt hs un = (ground arith, un)
has_path-build ks t (x ∷ ts) l kt hs un =
    let un' : IsUniform (Dict.keys x) l = rw hs.0 un in
    let next : IsUniform ks (add_topology x l) = rw hs.0 at (IsUniform-add x l un') in
    let (rest, all) = has_path-build ks t ts (add_topology x l) kt hs.1 next in
    (ground (arith, has_path-add t x l (kt ∙ sym hs.0) un'), all)

-- The entries of `r` are read from `t` under their keys, once each.
abbrev Reads : Topology → Topology → Type 0
Reads t [] = Unit
Reads t ((n, v) ∷ r) = (segment_value n t ≡ v) × Reads t r

find_value-none :
    (f : Level → Bool) (v : String) (vs : Values)
    → find_value v vs ≡ none
    → in_values f v vs ≡ false
unfolding find_value
find_value-none f v no_values h = refl
find_value-none f v (value u l vs) h = ground (arith, find_value-none f v vs)

find_value-some :
    (f : Level → Bool) (P : Level → Type 0) (v : String) (vs : Values) (l : Level)
    → find_value v vs ≡ some l
    → AllValues P vs
    → (in_values f v vs ≡ f l) × P l
unfolding find_value
find_value-some f P v no_values l h all = absurd (cc)
find_value-some f P v (value u x vs) l h all = elim (Bool-cases (u == v)) [
  | inl same ↦ let found : x ≡ l = cc (rw same at h) in (rw same (ap f found), subst P found all.0)
  | inr other ↦ let (e, p) = find_value-some f P v vs l (rw other at h) all.1 in (rw other e, p)
]

pick_first :
    (n k : String) (ks : List String) (vs : Values) (rest : Level)
    → k ≡ n
    → pick_segment (n ∷ ks) (segment k vs rest) ≡ some (k, vs)
unfolding pick_segment
pick_first n k ks vs rest e = rw ((eq_iff k n).1 e)

remove_first : (n k : String) (ks : List String) → k ≡ n → remove k (n ∷ ks) ≡ ks
unfolding remove
remove_first n k ks e = rw ((eq_iff n k).1 (sym e))

walk-none : (fuel : ℕ) (t : Topology) (u : List String) → walk fuel t none u ≡ some false
unfolding walk verdict
walk-none zero t u = refl
walk-none (suc fuel) t u = refl

walk-has_path :
    (fuel : ℕ) (t r : Topology) (l : Level)
    → length r < fuel
    → Reads t r
    → IsUniform (Dict.keys r) l
    → walk fuel t (some l) (Dict.keys r) ≡ some (has_path r l)
unfolding walk verdict
walk-has_path zero t r l enough reads un = absurd (omega arith)
walk-has_path (suc fuel) t [] no_segments enough reads un = refl
walk-has_path (suc fuel) t [] (segment k vs rest) enough reads un = absurd un
walk-has_path (suc fuel) t ((n, v) ∷ r) no_segments enough reads un = absurd un
walk-has_path (suc fuel) t ((n, v) ∷ r) (segment k vs rest) enough reads un =
    elim (Option-cases (find_value v vs)) [
      | inl lost ↦
          rw (step, lost)
            (walk-none fuel t (Dict.keys r)
              ∙ ap some (sym (find_value-none (has_path r) v vs lost)))
      | inr (l, found) ↦
          let (here, below) =
            find_value-some (has_path r) (IsUniform (Dict.keys r)) v vs l found un.2 in
          rw (step, found)
            (walk-has_path fuel t r l (omega arith) reads.1 below ∙ ap some (sym here))
    ]
  where
    step :
        walk (suc fuel) t (some (segment k vs rest)) (n ∷ Dict.keys r)
        ≡ walk fuel t (find_value v vs) (Dict.keys r)
    step =
        rw (pick_first n k (Dict.keys r) vs rest un.0, walk)
          (rw (un.0, reads.0, remove_first n n (Dict.keys r) refl) refl)

-- A topology reads as itself where no segment name comes twice.
abbrev pub IsDict : Topology → Type 0
IsDict [] = Unit
IsDict ((n, _) ∷ t) = (elem n (Dict.keys t) ≡ false) × IsDict t

length-keys : (t : Topology) → length (Dict.keys t) ≡ length t
length-keys [] = refl
length-keys (e ∷ t) = ap suc (length-keys t)

Reads-cons :
    (n v : String) (t r : Topology)
    → elem n (Dict.keys r) ≡ false
    → Reads t r
    → Reads ((n, v) ∷ t) r
unfolding segment_value lookup
Reads-cons n v t [] h reads = tt
Reads-cons n v t ((k, u) ∷ r) h reads = elim (Bool-cases (n == k)) [
  | inl same ↦ absurd (ground arith)
  | inr other ↦ (rw other reads.0, Reads-cons n v t r (rw other at h) reads.1)
]

Reads-self : (t : Topology) → IsDict t → Reads t t
unfolding segment_value lookup
Reads-self [] h = tt
Reads-self ((n, v) ∷ t) h = (rw (eq_refl n), Reads-cons n v t t h.0 (Reads-self t h.1))

-- Where all configured topologies list the same segments in the same order, a topology over these
-- segments is accessible exactly if it is one of the configured ones.
pub is_accessible-configured :
    (ks : List String) (t x : Topology) (ts : List Topology)
    → IsDict t
    → HasKeys ks t
    → All (HasKeys ks) (x ∷ ts)
    → is_accessible (some (init_topology (x ∷ ts))) t ≡ some (is_configured t (x ∷ ts))
unfolding is_accessible init_topology build_hierarchy
is_accessible-configured ks t x ts dict kt hs =
    let start : IsUniform ks (add_topology x no_segments) = rw hs.0 at (IsUniform-fresh x) in
    let (path, all) = has_path-build ks t ts (add_topology x no_segments) kt hs.1 start in
    walk-has_path (suc (length (Dict.keys t))) t t (build_hierarchy ts (add_topology x no_segments))
      (omega (arith, length-keys t)) (Reads-self t dict) (rw kt all)
    ∙ ap some (path ∙ ap (λ b. b || is_configured t ts) (has_path-fresh t x (kt ∙ sym hs.0)))
