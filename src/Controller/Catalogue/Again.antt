-- ===== src/Controller/Catalogue/Again.antt =====
-- A repeated `CreateVolume` of ember_csi/base.py, after other requests.
use ember_csi.Base.{◌≡◌, ◌≢◌, sym, ◌∙◌, ap, String, ◌==◌, truthy, true, none, some, [], ◌∷◌, arith}
use ember_csi.Base.Int.{◌≤ℤ◌}
use ember_csi.Rpc.{ok, Exec}
use ember_csi.Rpc.Effects.{IsQuiet, quiet_at}
use ember_csi.Cinder.{Volume, Cinder}
use ember_csi.Cinder.Laws.{Catalogue, CinderLaws}
use ember_csi.Csi.{CreateVolumeRequest, VolumeMessage, Servicer}
use ember_csi.Identity.Lookup.{Found, one, many, get_vol}
use ember_csi.Identity.Lookup.Live.{IsLive}
use ember_csi.Controller.Size.{Sizes, calculate_size}
use ember_csi.Controller.Message.{convert_volume_type}
use ember_csi.Controller.Create.{validate_requirements, create_body}
use ember_csi.Controller.Create.Existing.{create_body-idempotent}
use ember_csi.Controller.Catalogue.{IsUnique}
use ember_csi.Controller.Catalogue.Quiet.{validate_requirements-IsQuiet}
use ember_csi.Controller.Catalogue.Lookups.{Finds, FindsIn, get_vol_by_name}
use ember_csi.Controller.Catalogue.Requests.{Run, run-IsUnique, run_keeps, create_body-Serves}

-- The only live volume of a name is the one that is found.
only_found :
    (f : Catalogue) (name : String) (v : Volume) (found : Found)
    → IsUnique f
    → f v.id ≡ some v
    → v.name ≡ name
    → IsLive v
    → Finds f (λ x. x.name ≡ name) true found
    → found ≡ one v
only_found f name v (one x) unique at named live_v (at_x, named_x, live_x) =
    let ids : x.id ≡ v.id = unique x.id v.id x v at_x at live_x live_v (named_x ∙ sym named) in
    let same : some x ≡ some v = sym at_x ∙ (ap f ids ∙ at) in ground (arith, same)
only_found f name v (many []) unique at named live_v absent = absurd (absent v.id v at named live_v)
only_found f name v (many (x ∷ xs)) unique at named live_v found = ground (arith, found)

module _ {W : Type 0} (cl : Cinder W) (source_vol_id : Volume → Exec W String) (s : Servicer)
    (view : W → Catalogue) (laws : CinderLaws cl s.backend view) where
  -- A request for the name of a live volume that is available and large enough, of which the checks pass and
  -- the lookup returns, is answered by that volume.
  create_body_finds :
      (r : CreateVolumeRequest) (z : Sizes) (v : Volume) (found : Found) (w x t : W)
      → truthy r.name ≡ true
      → IsUnique (view w)
      → view w v.id ≡ some v
      → v.name ≡ r.name
      → v.status ≡ "available"
      → z.min_size ≤ℤ v.size
      → v.size ≤ℤ z.max_size
      → calculate_size r.capacity_range w ≡ (ok z, w)
      → validate_requirements cl source_vol_id s r w ≡ (ok tt, x)
      → get_vol cl s none (some r.name) x ≡ (ok found, t)
      → create_body cl source_vol_id s r w ≡ convert_volume_type source_vol_id s v t
  create_body_finds r z v found w x t given unique at named available lo hi sizes valid lookup =
      let same : view x ≡ view w =
        quiet_at view (validate_requirements cl source_vol_id s r)
          (validate_requirements-IsQuiet view s cl source_vol_id r) valid in
      let finds : FindsIn view (view x) (λ y. y.name ≡ r.name) true (ok found, t) =
        (rw lookup at (get_vol_by_name cl s view laws x r.name given (rw same unique))) in
      let is_one : found ≡ one v =
        only_found (view x) r.name v found (rw same unique) (rw same at) named
          (ap (λ y. y == "deleted") available) finds.1 in
      create_body-idempotent cl source_vol_id s r v z w x t sizes valid (rw is_one at lookup)
        available lo hi

  -- A volume that `CreateVolume` reported, on a catalogue without duplicates, with whatever requests since then,
  -- none of which deletes it: a
  -- request of its name is answered by it as it is, and nothing is created, if it is available and of a
  -- requested size, the request's other checks pass, and the lookup returns.
  pub create_body_kept :
      (only_reads : (v : Volume) → IsQuiet view (source_vol_id v)) (r r' : CreateVolumeRequest)
      (z : Sizes) (v : Volume) (m : VolumeMessage) (found : Found) (w u x y t : W)
      → truthy r.name ≡ true
      → r'.name ≡ r.name
      → IsUnique (view w)
      → create_body cl source_vol_id s r w ≡ (ok m, u)
      → view u m.volume_id ≡ some v
      → Run cl source_vol_id s (λ d. d.volume_id ≢ m.volume_id) u x
      → v.status ≡ "available"
      → z.min_size ≤ℤ v.size
      → v.size ≤ℤ z.max_size
      → calculate_size r'.capacity_range x ≡ (ok z, x)
      → validate_requirements cl source_vol_id s r' x ≡ (ok tt, y)
      → get_vol cl s none (some r'.name) y ≡ (ok found, t)
      → create_body cl source_vol_id s r' x ≡ convert_volume_type source_vol_id s v t
  create_body_kept only_reads r r' z v m found w u x y t given names unique first at run available
        lo hi sizes valid lookup =
      let ((v', at', named, live_v), unique_u, e) =
        create_body-Serves cl source_vol_id s view laws only_reads r w u m given unique first in
      let here =
        run_keeps cl source_vol_id s view laws only_reads m.volume_id v u x unique_u at run in
      let ids : v.id ≡ m.volume_id = laws.keyed u m.volume_id v at in
      let same : some v' ≡ some v = sym at' ∙ at in
      let name : v.name ≡ r.name = ground (arith, same, named) in
      create_body_finds r' z v found x y t (ap truthy names ∙ given)
        (run-IsUnique cl source_vol_id s view laws only_reads _ u x unique_u run)
        (ap (view x) ids ∙ here) (name ∙ sym names) available lo hi sizes valid lookup
