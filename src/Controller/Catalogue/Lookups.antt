-- ===== src/Controller/Catalogue/Lookups.antt =====
-- What `_get_vol` of ember_csi/base.py finds among the kept volumes.
use ember_csi.Base.{
  ◌≡◌, ◌≢◌, refl, sym, subst, ◌∙◌, ap, inl, inr, String, ◌==◌, truthy, Bool, true, false,
  Bool-cases, none, some, List, [], ◌∷◌, All,
}
use ember_csi.Rpc.{Outcome, ok, err, pure, continue}
use ember_csi.Cinder.{Volume, Cinder}
use ember_csi.Cinder.Laws.{Catalogue, CinderLaws, Among, IsDistinct, Lists}
use ember_csi.Csi.{Servicer}
use ember_csi.Identity.Lookup.{Found, one, many, live, single, get_vols, get_vol}
use ember_csi.Identity.Lookup.Live.{IsLive, live-IsLive}
use ember_csi.Controller.Catalogue.{IsUnique}

-- The live volume that passes; that there is none; or, where the lookup was by no text, a list of some.
abbrev pub Finds : Catalogue → (Volume → Type 0) → Bool → Found → Type 0
Finds f Passes b (one v) = (f v.id ≡ some v) × Passes v × IsLive v
Finds f Passes b (many []) = (n : String) (v : Volume) → f n ≡ some v → Passes v → ¬ IsLive v
Finds f Passes b (many (x ∷ xs)) = b ≡ false

abbrev pub FindsIn :
    {W : Type 0}
    → (W → Catalogue)
    → Catalogue
    → (Volume → Type 0)
    → Bool
    → Outcome Found × W
    → Type 0
FindsIn view f Passes b (ok found, u) = (view u ≡ f) × Finds f Passes b found
FindsIn view f Passes b (err e, u) = view u ≡ f

-- At most one live volume passes.
abbrev pub IsSingle : Catalogue → (Volume → Type 0) → Type 0
IsSingle f Passes =
    (n k : String) (v x : Volume)
    → f n ≡ some v
    → f k ≡ some x
    → Passes v
    → Passes x
    → IsLive v
    → IsLive x
    → n ≡ k

live-All : (P : Volume → Type 0) (vs : List Volume) → All P vs → All P (live vs)
unfolding live
live-All P [] h = tt
live-All P (v ∷ vs) (h, hs) = elim (Bool-cases (v.status == "deleted")) [
  | inl gone ↦ rw gone (live-All P vs hs)
  | inr here ↦ rw here (h, live-All P vs hs)
]

live-IsDistinct : (vs : List Volume) → IsDistinct vs → IsDistinct (live vs)
unfolding live
live-IsDistinct [] h = tt
live-IsDistinct (v ∷ vs) (h, hs) = elim (Bool-cases (v.status == "deleted")) [
  | inl gone ↦ rw gone (live-IsDistinct vs hs)
  | inr here ↦ rw here (live-All (λ x. x.id ≢ v.id) vs h, live-IsDistinct vs hs)
]

live-Among : (x : Volume) (vs : List Volume) → IsLive x → Among x vs → Among x (live vs)
unfolding live
live-Among x [] live_x h = h
live-Among x (v ∷ vs) live_x (inr there) = elim (Bool-cases (v.status == "deleted")) [
  | inl gone ↦ rw gone (live-Among x vs live_x there)
  | inr here ↦ rw here (inr (live-Among x vs live_x there))
]
live-Among x (v ∷ vs) live_x (inl same) =
    let here : (v.status == "deleted") ≡ false =
      ap (λ (y : Volume). y.status == "deleted") (sym same) ∙ live_x in
    rw here (inl same)

module _ (f : Catalogue) (Passes : Volume → Type 0) (single_one : IsSingle f Passes) where
  -- The list is of distinct live volumes that pass, and has them all.
  single-Finds :
      (b : Bool) (vs : List Volume)
      → All (λ (v : Volume). (f v.id ≡ some v) × Passes v) vs
      → All IsLive vs
      → IsDistinct vs
      → ((n : String) (v : Volume) → f n ≡ some v → Passes v → IsLive v → Among v vs)
      → Finds f Passes b (single b vs)
  unfolding single
  single-Finds true [] all lives distinct complete =
      λ n v at passes here. complete n v at passes here
  single-Finds false [] all lives distinct complete =
      λ n v at passes here. complete n v at passes here
  single-Finds true (v ∷ []) all lives distinct complete = (all.0.0, all.0.1, lives.0)
  single-Finds false (v ∷ vs) all lives distinct complete = refl
  single-Finds true (v ∷ x ∷ vs) (all_v, (all_x, all)) (live_v, (live_x, lives)) distinct complete =
      elim (distinct.0.0
        (single_one x.id v.id x v all_x.0 all_v.0 all_x.1 all_v.1 live_x live_v)) [ ]

  listed-Finds :
      (b : Bool) (vs : List Volume) → Lists f Passes vs → Finds f Passes b (single b (live vs))
  listed-Finds b vs h =
      single-Finds b (live vs) (live-All _ vs h.sound) (live-IsLive vs)
        (live-IsDistinct vs h.distinct)
        (λ n v at passes here. live-Among v vs here (h.complete n v at passes))

module _ {W : Type 0} (cl : Cinder W) (s : Servicer) (view : W → Catalogue)
    (laws : CinderLaws cl s.backend view) (w : W) where
  looked_up :
      (Passes : Volume → Type 0) (b : Bool) (p : Outcome (List Volume) × W)
      → IsSingle (view w) Passes
      → view p.1 ≡ view w
      → ((vs : List Volume) → p.0 ≡ ok vs → Lists (view w) Passes vs)
      → FindsIn view (view w) Passes b (
          let (r, u) = continue p.0 (λ res. pure (live res)) p.1 in
          continue r (λ res. pure (single b res)) u)
  looked_up Passes b (ok vs, u) single_one same lists =
      (same, listed-Finds (view w) Passes single_one b vs (lists vs refl))
  looked_up Passes b (err e, u) single_one same lists = same

  pub get_vol_by_id :
      (id : String)
      → truthy id ≡ true
      → FindsIn view (view w) (λ v. v.id ≡ id) true (get_vol cl s (some id) none w)
  unfolding get_vol get_vols
  get_vol_by_id id given =
      subst (λ b. FindsIn view (view w) (λ v. v.id ≡ id) b (get_vol cl s (some id) none w)) given
        (looked_up (λ v. v.id ≡ id) (truthy id) (cl.get_volumes (some id) none s.backend w)
          (λ n k v x at_n at_k v_id x_id live_v live_x.
            sym (laws.keyed w n v at_n) ∙ (v_id ∙ (sym x_id ∙ laws.keyed w k x at_k)))
          (laws.reads_quiet (some id) none w) (λ vs. laws.by_id id w vs given))

  pub get_vol_by_name :
      (name : String)
      → truthy name ≡ true
      → IsUnique (view w)
      → FindsIn view (view w) (λ v. v.name ≡ name) true (get_vol cl s none (some name) w)
  unfolding get_vol get_vols
  get_vol_by_name name given unique =
      looked_up (λ v. v.name ≡ name) true (cl.get_volumes none (some name) s.backend w)
        (λ n k v x at_n at_k v_name x_name live_v live_x.
          unique n k v x at_n at_k live_v live_x (v_name ∙ sym x_name))
        (laws.reads_quiet none (some name) w) (λ vs. laws.by_name name w vs given)
