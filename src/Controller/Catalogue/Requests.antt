-- ===== src/Controller/Catalogue/Requests.antt =====
-- `CreateVolume` and `DeleteVolume` of ember_csi/base.py, served one after another on the kept volumes. The
-- requests have their required fields, as `require` sees to.
use ember_csi.Base.{◌≡◌, ◌≢◌, sym, ◌∙◌, ap, String, truthy, true, some}
use ember_csi.Rpc.{Outcome, ok, err, Exec}
use ember_csi.Rpc.Effects.{IsQuiet}
use ember_csi.Cinder.{Volume, Cinder}
use ember_csi.Cinder.Laws.{Catalogue, CinderLaws}
use ember_csi.Csi.{CreateVolumeRequest, DeleteVolumeRequest, VolumeMessage, Servicer}
use ember_csi.Identity.Lookup.Live.{IsLive}
use ember_csi.Controller.Create.{create_body}
use ember_csi.Controller.Delete.{delete_body}
use ember_csi.Controller.Catalogue.{IsUnique, IsFree}
use ember_csi.Controller.Catalogue.Create.{Serves, Extends, Handled, create_body-Handled}
use ember_csi.Controller.Catalogue.Delete.{Apart, Removed, delete_body-Removed}

module _ {W : Type 0} (cl : Cinder W) (source_vol_id : Volume → Exec W String) (s : Servicer) where
  -- Requests of which the deletions are as `Allowed` says, whatever they answer.
  pub data Run (Allowed : DeleteVolumeRequest → Type 0) (w : W) : W → Type 0 where
    start : Run Allowed w w
    create :
        (r : CreateVolumeRequest) {u : W}
        → truthy r.name ≡ true
        → Run Allowed w u
        → Run Allowed w (create_body cl source_vol_id s r u).1
    delete :
        (r : DeleteVolumeRequest) {u : W}
        → truthy r.volume_id ≡ true
        → Allowed r
        → Run Allowed w u
        → Run Allowed w (delete_body cl s r u).1

handled-IsUnique :
    {W A : Type 0} (view : W → Catalogue) (f : Catalogue) (id_of : A → String) (name : String)
    (p : Outcome A × W)
    → Handled view f id_of name p
    → IsUnique (view p.1) × Extends f (view p.1)
handled-IsUnique view f id_of name (ok a, u) h = (h.0, h.1)
handled-IsUnique view f id_of name (err e, u) h = h

removed-IsUnique :
    {W : Type 0} (view : W → Catalogue) (f : Catalogue) (id : String) (p : Outcome (Unit {0}) × W)
    → Removed view f id p
    → IsUnique (view p.1) × Apart f id (view p.1)
removed-IsUnique view f id (ok a, u) h = (h.0, h.1)
removed-IsUnique view f id (err e, u) h = h

-- The name of a volume that is gone is free, if every other volume is as it was.
freed :
    (f g : Catalogue) (id : String) (x : Volume)
    → IsUnique f
    → Apart f id g
    → ((y : Volume) → g id ≡ some y → ¬ IsLive y)
    → f id ≡ some x
    → IsLive x
    → IsFree g x.name
freed f g id x unique apart gone at live_x n v here named live_v =
    let other : n ≢ id = λ e. gone v (ap g (sym e) ∙ here) live_v in
    other (unique n id v x (sym (apart n other) ∙ here) at live_v live_x named)

module _ {W : Type 0} (cl : Cinder W) (source_vol_id : Volume → Exec W String) (s : Servicer)
    (view : W → Catalogue) (laws : CinderLaws cl s.backend view)
    (only_reads : (v : Volume) → IsQuiet view (source_vol_id v)) where
  created :
      (r : CreateVolumeRequest) (w : W)
      → truthy r.name ≡ true
      → IsUnique (view w)
      → IsUnique (view (create_body cl source_vol_id s r w).1)
        × Extends (view w) (view (create_body cl source_vol_id s r w).1)
  created r w given unique =
      handled-IsUnique view (view w) (λ (m : VolumeMessage). m.volume_id) r.name _
        (create_body-Handled cl source_vol_id s view laws only_reads r w given unique)

  deleted :
      (r : DeleteVolumeRequest) (w : W)
      → truthy r.volume_id ≡ true
      → IsUnique (view w)
      → IsUnique (view (delete_body cl s r w).1)
        × Apart (view w) r.volume_id (view (delete_body cl s r w).1)
  deleted r w given unique =
      removed-IsUnique view (view w) r.volume_id _
        (delete_body-Removed cl s view laws r w given unique)

  -- From a catalogue without duplicates, and with cinderlib by its laws: whatever requests to create and delete
  -- volumes are served one after another, and whatever they answer or however they fail, two different live
  -- volumes never have the same name.
  pub run-IsUnique :
      (Allowed : DeleteVolumeRequest → Type 0) (w u : W)
      → IsUnique (view w)
      → Run cl source_vol_id s Allowed w u
      → IsUnique (view u)
  run-IsUnique Allowed w _ unique start = unique
  run-IsUnique Allowed w _ unique (create r {u} given before) =
      (created r u given (run-IsUnique Allowed w u unique before)).0
  run-IsUnique Allowed w _ unique (delete r {u} given allowed before) =
      (deleted r u given (run-IsUnique Allowed w u unique before)).0

  -- A volume that no request deletes stays as it is.
  pub run_keeps :
      (id : String) (x : Volume) (w u : W)
      → IsUnique (view w)
      → view w id ≡ some x
      → Run cl source_vol_id s (λ r. r.volume_id ≢ id) w u
      → view u id ≡ some x
  run_keeps id x w _ unique at start = at
  run_keeps id x w _ unique at (create r {u} given before) =
      (created r u given (run-IsUnique _ w u unique before)).1 id x
        (run_keeps id x w u unique at before)
  run_keeps id x w _ unique at (delete r {u} given other before) =
      (deleted r u given (run-IsUnique _ w u unique before)).1 id (λ e. other (sym e))
      ∙ run_keeps id x w u unique at before

  -- `CreateVolume` on a catalogue without duplicates: what it answers is the id of a live volume of the
  -- requested name, no other live volume has that name afterwards, and every volume that was there is there
  -- as it was.
  pub create_body-Serves :
      (r : CreateVolumeRequest) (w u : W) (m : VolumeMessage)
      → truthy r.name ≡ true
      → IsUnique (view w)
      → create_body cl source_vol_id s r w ≡ (ok m, u)
      → Serves (view u) r.name m.volume_id × IsUnique (view u) × Extends (view w) (view u)
  create_body-Serves r w u m given unique answer =
      let (a, b, c) : Handled view (view w) (λ (x : VolumeMessage). x.volume_id) r.name (ok m, u) =
        (rw answer at
          (create_body-Handled cl source_vol_id s view laws only_reads r w given unique)) in
      (c, a, b)

  -- From a catalogue without duplicates: a request for a volume that was created before, by any other request
  -- of its name, answers with the id of that volume, if it answers at all and no request deleted the volume in
  -- between.
  pub create_body-again :
      (r r' : CreateVolumeRequest) (w u x t : W) (m m' : VolumeMessage)
      → truthy r.name ≡ true
      → r'.name ≡ r.name
      → IsUnique (view w)
      → create_body cl source_vol_id s r w ≡ (ok m, u)
      → Run cl source_vol_id s (λ d. d.volume_id ≢ m.volume_id) u x
      → create_body cl source_vol_id s r' x ≡ (ok m', t)
      → m'.volume_id ≡ m.volume_id
  create_body-again r r' w u x t m m' given names unique first run second =
      let ((v, at, named, live_v), unique_u, e) = create_body-Serves r w u m given unique first in
      let unique_x = run-IsUnique _ u x unique_u run in
      let here = run_keeps m.volume_id v u x unique_u at run in
      let ((v', at', named', live_v'), unique_t, extends) =
        create_body-Serves r' x t m' (ap truthy names ∙ given) unique_x second in
      unique_t m'.volume_id m.volume_id v' v at' (extends m.volume_id v here) live_v' live_v
        (named' ∙ (names ∙ sym named))

module _ {W : Type 0} (cl : Cinder W) (s : Servicer) (view : W → Catalogue)
    (laws : CinderLaws cl s.backend view) where
  -- `DeleteVolume` on a catalogue without duplicates: after it answers, no live volume has the id, the name of
  -- the live volume that had it is free, and every other volume is as it was.
  pub delete_body-frees :
      (r : DeleteVolumeRequest) (w u : W)
      → truthy r.volume_id ≡ true
      → IsUnique (view w)
      → delete_body cl s r w ≡ (ok tt, u)
      → ((x : Volume) → view u r.volume_id ≡ some x → ¬ IsLive x)
        × ((x : Volume) → view w r.volume_id ≡ some x → IsLive x → IsFree (view u) x.name)
        × Apart (view w) r.volume_id (view u)
  delete_body-frees r w u given unique answer =
      let (a, b, c) : Removed view (view w) r.volume_id (ok tt, u) =
        (rw answer at (delete_body-Removed cl s view laws r w given unique)) in
      (c, (λ x at live_x. freed (view w) (view u) r.volume_id x unique b c at live_x), b)
