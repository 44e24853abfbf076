-- ===== src/Controller/Catalogue/Created.antt =====
-- `CreateVolume` of ember_csi/base.py on the kept volumes.
use ember_csi.Base.{
  ◌≡◌, refl, subst, List, ◌∙◌, String, ◌==◌, ◌<>◌, elem, Bool, true, false, not, Option, none, some,
  [], ◌∷◌,
}
use ember_csi.Base.Dict.{Dict}
use ember_csi.Base.Int.{ℤ, ltb_ℤ}
use ember_csi.Rpc.{
  Code, invalid_argument, out_of_range, Outcome, ok, err, Exec, continue, abort_with, abort_if,
  ◌>>◌,
}
use ember_csi.Cinder.{Volume, VolumeParams, Cinder}
use ember_csi.Cinder.Laws.{Catalogue, CinderLaws, Makes, Creates}
use ember_csi.Csi.{
  ContentSource, from_snapshot, from_volume, SpecVersion, v0_2_0, v0_3_0, v1_0_0, Servicer,
}
use ember_csi.Identity.Lookup.{Found, one, many, or_absent, get_vol}
use ember_csi.Snapshot.Lookup
use ember_csi.Snapshot.Lookup.{FoundSnap, or_absent_snap, get_snap}
use ember_csi.Controller.Create.{check_keywords, create_from_snap, create_from_vol, create_content}
use ember_csi.Controller.Catalogue.Quiet.{check_keywords-IsQuiet, get_vol-IsQuiet, get_snap-IsQuiet}

module _ {W : Type 0} (view : W → Catalogue) (f : Catalogue) (name : String) where
  pub after_quiet :
      {A : Type 0} (p : Outcome A × W) (k : A → Exec W Volume)
      → view p.1 ≡ f
      → ((a : A) (u : W) → view u ≡ f → Makes view f name (k a u))
      → Makes view f name (continue p.0 k p.1)
  after_quiet (ok a, u) k same rest = rest a u same
  after_quiet (err e, u) k same rest = (none, same, tt)

  after_aborts :
      (b b' : Bool) (d d' : String) (n : Exec W Volume) (u : W)
      → view u ≡ f
      → Makes view f name (n u)
      → Makes view f name ((abort_if b invalid_argument d >> (abort_if b' out_of_range d' >> n)) u)
  after_aborts true b' d d' n u same rest = (none, same, tt)
  after_aborts false true d d' n u same rest = (none, same, tt)
  after_aborts false false d d' n u same rest = rest

  absent_snap_quiet :
      (found : FoundSnap) (a : String) (c : Code) (d : String) (u : W)
      → view (or_absent_snap found a (abort_with c d) u).1 ≡ view u
  unfolding or_absent_snap
  absent_snap_quiet (Lookup.one x) a c d u = refl
  absent_snap_quiet (Lookup.many []) a c d u = refl
  absent_snap_quiet (Lookup.many (x ∷ xs)) a c d u = refl

  absent_quiet :
      (found : Found) (a : String) (c : Code) (d : String) (u : W)
      → view (or_absent found a (abort_with c d) u).1 ≡ view u
  unfolding or_absent
  absent_quiet (one x) a c d u = refl
  absent_quiet (many []) a c d u = refl
  absent_quiet (many (x ∷ xs)) a c d u = refl

module _ {W : Type 0} (cl : Cinder W) (source_vol_id : Volume → Exec W String) (s : Servicer)
    (view : W → Catalogue) (laws : CinderLaws cl s.backend view) where
  create_from_snap-Creates :
      (id : String) (size : ℤ) (name : String) (params : VolumeParams)
      → Creates view name (create_from_snap cl source_vol_id s id size name params)
  unfolding create_from_snap
  create_from_snap-Creates id size name params w =
      after_quiet view (view w) name (get_snap cl (some id) none none w) _
        (get_snap-IsQuiet cl s view laws (some id) none none w)
        (λ found u same.
          after_quiet view (view w) name (or_absent_snap found "status" _ u) _
            (absent_snap_quiet view (view w) name found "status" _ _ u ∙ same)
            (λ x t still.
              after_aborts view (view w) name (not (x.status == "available"))
                (ltb_ℤ size x.volume_size) ("Snapshot " <> (id <> " is not available"))
                ("Snapshot " <> (id <> " is bigger than requested volume"))
                (cl.create_from_snapshot x name params) t still
                (rw still at (laws.creates_from x name params t))))

  create_from_vol-Creates :
      (id : String) (size : ℤ) (name : String) (params : VolumeParams)
      → Creates view name (create_from_vol cl source_vol_id s id size name params)
  unfolding create_from_vol
  create_from_vol-Creates id size name params w =
      after_quiet view (view w) name (get_vol cl s (some id) none w) _
        (get_vol-IsQuiet cl s view laws (some id) none w)
        (λ found u same.
          after_quiet view (view w) name (or_absent found "status" _ u) _
            (absent_quiet view (view w) name found "status" _ _ u ∙ same)
            (λ x t still.
              after_aborts view (view w) name (not (elem x.status ("available" ∷ "in-use" ∷ [])))
                (ltb_ℤ size x.size) ("Volume " <> (id <> " is not available"))
                ("Volume " <> (id <> " is bigger than requested volume"))
                (cl.clone x name size params) t still
                (rw still at (laws.clones x name size params t))))

  after_check :
      (arguments : List String) (name : String) (params : Dict String) (m : Exec W Volume)
      → Creates view name m
      → Creates view name (check_keywords arguments params >> m)
  after_check arguments name params m makes w =
      after_quiet view (view w) name (check_keywords arguments params w) _
        (check_keywords-IsQuiet view arguments params w)
        (λ t u same. subst (λ f. Makes view f name (m u)) same (makes u))

  pub create_content-Creates :
      (n : SpecVersion) (source : Option ContentSource) (size : ℤ) (name : String)
      (params : VolumeParams)
      → Creates view name (create_content cl source_vol_id s n source size name params)
  unfolding create_content
  create_content-Creates v0_2_0 source size name params w = laws.creates size name params w
  create_content-Creates v0_3_0 none size name params w = laws.creates size name params w
  create_content-Creates v0_3_0 (some source) size name params w = (none, refl, tt)
  create_content-Creates v1_0_0 none size name params w = laws.creates size name params w
  create_content-Creates v1_0_0 (some (from_snapshot id)) size name params w =
      after_check ("snap_id" ∷ []) name params.rest
        (create_from_snap cl source_vol_id s id size name params)
        (create_from_snap-Creates id size name params) w
  create_content-Creates v1_0_0 (some (from_volume id)) size name params w =
      after_check ("vol_id" ∷ []) name params.rest
        (create_from_vol cl source_vol_id s id size name params)
        (create_from_vol-Creates id size name params) w
