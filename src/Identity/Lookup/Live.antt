-- ===== src/Identity/Lookup/Live.antt =====
-- Soft-deleted volumes are invisible to the handlers that look a volume up with `_get_vol`.
use ember_csi.Base.{
  String, ◌≡◌, subst, ◌==◌, Bool, true, false, Option, List, [], ◌∷◌, All, arith, Bool-cases, inl,
  inr,
}
use ember_csi.Rpc.{ok}
use ember_csi.Rpc.Inversion.{bind-eq-ok}
use ember_csi.Cinder.{Volume, Cinder}
use ember_csi.Csi.{Servicer}
use ember_csi.Identity.Lookup.{Found, one, many, live, single, is_filtered, get_vols, get_vol}

abbrev pub IsLive : Volume → Type 0
IsLive v = (v.status == "deleted") ≡ false

abbrev pub AllLive : Found → Type 0
AllLive (one v) = IsLive v
AllLive (many vs) = All IsLive vs

pub live-IsLive : (vs : List Volume) → All IsLive (live vs)
unfolding live
live-IsLive [] = tt
live-IsLive (v ∷ vs) = elim (Bool-cases (v.status == "deleted")) [
  | inl gone ↦ rw gone (live-IsLive vs)
  | inr here ↦ rw here (here, live-IsLive vs)
]

single-AllLive : (b : Bool) (vs : List Volume) → All IsLive vs → AllLive (single b vs)
unfolding single
single-AllLive true [] h = h
single-AllLive true (v ∷ []) h = h.0
single-AllLive true (v ∷ x ∷ vs) h = h
single-AllLive false vs h = h

-- No volume that `_get_vol` returns is soft-deleted, whatever the filters and the persistence.
pub get_vol-AllLive :
    {W : Type 0} (cl : Cinder W) (s : Servicer) (volume_id volume_name : Option String) (f : Found)
    (w u : W)
    → get_vol cl s volume_id volume_name w ≡ (ok f, u)
    → AllLive f
unfolding get_vol get_vols
get_vol-AllLive cl s volume_id volume_name f w u h =
    let (vs, a, e, k) = bind-eq-ok (get_vols cl s volume_id volume_name) _ w h in
    let (res, b, e', k') = bind-eq-ok (cl.get_volumes volume_id volume_name s.backend) _ w e in
    let same : single (is_filtered volume_id volume_name) (live res) ≡ f = ground arith in
    subst AllLive same (single-AllLive _ (live res) (live-IsLive res))
