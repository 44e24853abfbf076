-- ===== src/Topology/Accessible/Rounds.antt =====
-- How many rounds the loop of `_topology_is_accessible` of ember_csi/base.py takes, and when it does
-- not end.
use ember_csi.Base.{
  ℕ, zero, suc, ◌<◌, ◌≡◌, refl, String, eq_iff, elem, true, false, Option, none, some, List, [],
  ◌∷◌, length, All, Option-cases, inl, inr, arith,
}
use ember_csi.Base.Dict
use ember_csi.Csi.{Topology, Level, Values, no_segments, segment}
use ember_csi.Topology.Hierarchy.{find_value}
use ember_csi.Topology.Accessible.{pick_segment, remove, segment_value, walk, is_accessible}

length-remove :
    (n : String) (ms : List String) → elem n ms ≡ true → suc (length (remove n ms)) ≡ length ms
unfolding remove
length-remove n [] h = absurd (cc)
length-remove n (m ∷ ms) h = ground (arith, eq_iff n m, eq_iff m n, length-remove n ms)

pick_segment-elem :
    (u : List String) (l : Level) (n : String) (vs : Values)
    → pick_segment u l ≡ some (n, vs)
    → elem n u ≡ true
unfolding pick_segment
pick_segment-elem u no_segments n vs h = absurd (cc)
pick_segment-elem u (segment m ws l) n vs h = ground (arith, pick_segment-elem u l n vs)

-- A level none of whose segments is unchecked is walked for ever.
pub walk-stuck :
    (fuel : ℕ) (t : Topology) (n : String) (vs : Values) (l : Level) (x : String) (xs : List String)
    → pick_segment (x ∷ xs) (segment n vs l) ≡ none
    → walk fuel t (some (segment n vs l)) (x ∷ xs) ≡ none
unfolding walk
walk-stuck zero t n vs l x xs h = refl
walk-stuck (suc fuel) t n vs l x xs h = rw (h, walk) (walk-stuck fuel t n vs l x xs h)

walk_hangs :
    (fuel more : ℕ) (t : Topology) (l : Option Level) (u : List String)
    → length u < fuel
    → walk fuel t l u ≡ none
    → walk more t l u ≡ none
unfolding walk
walk_hangs fuel more t none u enough h = absurd (cc)
walk_hangs fuel more t (some no_segments) u enough h = absurd (cc)
walk_hangs fuel more t (some (segment n vs l)) [] enough h = absurd (cc)
walk_hangs zero more t (some (segment n vs l)) (x ∷ xs) enough h = absurd (omega arith)
walk_hangs (suc fuel) zero t (some (segment n vs l)) (x ∷ xs) enough h = refl
walk_hangs (suc fuel) (suc more) t (some (segment n vs l)) (x ∷ xs) enough h =
    elim (Option-cases (pick_segment (x ∷ xs) (segment n vs l))) [
      | inl stuck ↦ walk-stuck (suc more) t n vs l x xs stuck
      | inr ((m, ws), found) ↦
          let shorter : length (remove m (x ∷ xs)) < fuel = omega (
            arith,
            length-remove m (x ∷ xs) (pick_segment-elem (x ∷ xs) (segment n vs l) m ws found),
          ) in
          rw (found, walk)
            (walk_hangs fuel more t (find_value (segment_value m t) ws) (remove m (x ∷ xs)) shorter
              (rw (found, walk) at h))
    ]

-- The fuel is enough: where the answer is not there after a round for each segment of the topology
-- and one more, the loop does not end, however many rounds it is given.
pub is_accessible-hangs :
    (hiera : Option Level) (t : Topology)
    → is_accessible hiera t ≡ none
    → (rounds : ℕ) → walk rounds t hiera (Dict.keys t) ≡ none
unfolding is_accessible
is_accessible-hangs hiera t h rounds =
    walk_hangs (suc (length (Dict.keys t))) rounds t hiera (Dict.keys t) (omega arith) h

-- The names of the segments of a level.
abbrev pub names : Level → List String
names no_segments = []
names (segment n vs l) = n ∷ names l

pick_segment-none :
    (u : List String) (l : Level) → All (λ n. elem n u ≡ false) (names l) → pick_segment u l ≡ none
unfolding pick_segment
pick_segment-none u no_segments h = refl
pick_segment-none u (segment n vs l) h = rw (h.0) (pick_segment-none u l h.1)

-- The loop of `_topology_is_accessible` for a topology that shares no segment name with the first level of a
-- configured hierarchy does not end, however many rounds it is given.
pub is_accessible-disjoint :
    (n : String) (vs : Values) (l : Level) (k v : String) (t : Topology)
    → All (λ m. elem m (Dict.keys ((k, v) ∷ t)) ≡ false) (names (segment n vs l))
    → (rounds : ℕ)
    → walk rounds ((k, v) ∷ t) (some (segment n vs l)) (Dict.keys ((k, v) ∷ t)) ≡ none
is_accessible-disjoint n vs l k v t h rounds =
    walk-stuck rounds ((k, v) ∷ t) n vs l k (Dict.keys t)
      (pick_segment-none (Dict.keys ((k, v) ∷ t)) (segment n vs l) h)
