-- ===== src/Controller/Catalogue/Create.antt =====
-- `CreateVolume` of ember_csi/base.py on the kept volumes: what it makes of them, and what it reports.
use ember_csi.Base.{
  ◌≡◌, refl, subst, ◌∙◌, ap, String, truthy, not, ◌&&◌, eq_iff, true, Option, none, some, [], ◌∷◌,
  arith,
}
use ember_csi.Base.Int.{leb_ℤ}
use ember_csi.Rpc.{Outcome, ok, err, already_exists, Exec, continue, abort_if, ◌>>=◌}
use ember_csi.Rpc.Effects.{IsQuiet, abort_if-IsQuiet}
use ember_csi.Cinder.{Volume, Cinder}
use ember_csi.Cinder.Laws.{Catalogue, CinderLaws, Plus, Makes}
use ember_csi.Csi.{CreateVolumeRequest, VolumeMessage, Servicer}
use ember_csi.Identity.Lookup.{Found, one, many, get_vol}
use ember_csi.Identity.Lookup.Live.{IsLive}
use ember_csi.Controller.Size.{Sizes, calculate_size}
use ember_csi.Controller.Message.{convert_volume_type}
use ember_csi.Controller.Params.{convert_volume_params}
use ember_csi.Controller.Create.{
  check_keywords, create_content, validate_requirements, wait_created, existing_or_new,
  report_created, create_body,
}
use ember_csi.Controller.Catalogue.{IsUnique, IsFree, known_at, plus-IsUnique}
use ember_csi.Controller.Catalogue.Quiet.{
  check_keywords-IsQuiet, calculate_size-IsQuiet, validate_requirements-IsQuiet,
  report_created-IsQuiet,
}
use ember_csi.Controller.Catalogue.Waits.{Awaited, wait_created_keeps}
use ember_csi.Controller.Catalogue.Lookups.{Finds, FindsIn, get_vol_by_name}
use ember_csi.Controller.Catalogue.Created.{after_quiet, create_content-Creates}

-- Every volume of the one is in the other as it was.
abbrev pub Extends : Catalogue → Catalogue → Type 0
Extends f g = (n : String) (x : Volume) → f n ≡ some x → g n ≡ some x

-- A live volume of the name stands under the id.
abbrev pub Serves : Catalogue → String → String → Type 0
Serves f name id = (x : Volume) × (f id ≡ some x) × (x.name ≡ name) × IsLive x

-- What the handler leaves, and what an answer of it stands for; `id_of` reads the answer's id.
abbrev pub Handled :
    {W A : Type 0} → (W → Catalogue) → Catalogue → (A → String) → String → Outcome A × W → Type 0
Handled view f id_of name (ok a, u) =
    IsUnique (view u) × Extends f (view u) × Serves (view u) name (id_of a)
Handled view f id_of name (err e, u) = IsUnique (view u) × Extends f (view u)

plus-Extends : (f g : Catalogue) (name : String) (o : Option Volume) → Plus f name o g → Extends f g
plus-Extends f g name none same n x at = rw same at
plus-Extends f g name (some v) (fresh, named, same) n x at = rw same (ground (arith, eq_iff v.id n))

Plus-Serves :
    (f g : Catalogue) (name : String) (v : Volume)
    → Plus f name (some v) g
    → IsLive v
    → Serves g name v.id
Plus-Serves f g name v (fresh, named, same) live_v =
    (v, rw same (ground (arith, eq_iff v.id v.id)), named, live_v)

module _ {W : Type 0} (view : W → Catalogue) (f : Catalogue) (unique : IsUnique f)
    (name : String) where
  made-Handled :
      (p : Outcome Volume × W)
      → IsFree f name
      → Makes view f name p
      → Handled view f (λ (v : Volume). v.id) name p
  made-Handled (ok v, u) free (o, plus, (same, live_v)) = (
    plus-IsUnique f unique name o (view u) plus (λ y e. free),
    plus-Extends f (view u) name o plus,
    Plus-Serves f (view u) name v (subst (λ x. Plus f name x (view u)) same plus) live_v,
  )
  made-Handled (err e, u) free (o, plus, t) = (
    plus-IsUnique f unique name o (view u) plus (λ v e. free),
    plus-Extends f (view u) name o plus,
  )

  Awaited-Handled :
      (v : Volume) (p : Outcome Volume × W)
      → f v.id ≡ some v
      → v.name ≡ name
      → IsLive v
      → Awaited view f v p
      → Handled view f (λ (x : Volume). x.id) name p
  Awaited-Handled v (ok x, u) at named live_v (same, (ids, names, gone)) =
      rw same (unique, (λ n y h. h), (v, (ap f ids ∙ at), named, live_v))
  Awaited-Handled v (err e, u) at named live_v same = rw same (unique, λ n y h. h)

  quiet-Handled :
      {A B : Type 0} (id_of : B → String) (p : Outcome A × W) (k : A → Exec W B)
      → view p.1 ≡ f
      → ((a : A) (u : W) → view u ≡ f → Handled view f id_of name (k a u))
      → Handled view f id_of name (continue p.0 k p.1)
  quiet-Handled id_of (ok a, u) k same rest = rest a u same
  quiet-Handled id_of (err e, u) k same rest = rw same (unique, λ n y h. h)

module _ {W : Type 0} (cl : Cinder W) (source_vol_id : Volume → Exec W String) (s : Servicer)
    (view : W → Catalogue) (laws : CinderLaws cl s.backend view)
    (only_reads : (v : Volume) → IsQuiet view (source_vol_id v)) where
  existing_or_new-Handled :
      (r : CreateVolumeRequest) (z : Sizes) (found : Found) (w : W)
      → IsUnique (view w)
      → Finds (view w) (λ v. v.name ≡ r.name) true found
      → Handled view
          (view w)
          (λ (v : Volume). v.id)
          r.name
          (existing_or_new cl source_vol_id s r z found w)
  unfolding existing_or_new
  existing_or_new-Handled r z (one v) w unique (at, named, live_v) =
      quiet-Handled view (view w) unique r.name (λ (x : Volume). x.id)
        (abort_if (not (leb_ℤ z.min_size v.size && leb_ℤ v.size z.max_size)) already_exists
          "Volume already exists but is incompatible" w)
        (λ t. wait_created cl source_vol_id s v) (abort_if-IsQuiet view _ _ _ w)
        (λ t u same.
          Awaited-Handled view (view w) unique r.name v (wait_created cl source_vol_id s v u) at
            named live_v
            (subst (λ g. Awaited view g v (wait_created cl source_vol_id s v u)) same
              (wait_created_keeps cl s view laws source_vol_id v u
                (rw same (known_at (view w) v v at refl)) live_v)))
  existing_or_new-Handled r z (many []) w unique free =
      made-Handled view (view w) unique r.name _ free (
        after_quiet view (view w) r.name (convert_volume_params r.parameters, w) _ refl
          (λ p u same.
            after_quiet view (view w) r.name
              (check_keywords ("self" ∷ "vol_size" ∷ "request" ∷ "context" ∷ []) p.rest u) _
              (check_keywords-IsQuiet view _ p.rest u ∙ same)
              (λ t x still.
                subst
                  (λ g. Makes view g r.name (
                    create_content cl source_vol_id s s.version r.volume_content_source z.vol_size
                      r.name p x))
                  still
                  (create_content-Creates cl source_vol_id s view laws s.version
                    r.volume_content_source z.vol_size r.name p x))))
  existing_or_new-Handled r z (many (x ∷ xs)) w unique found = ground (arith, found)

  report_created_id :
      (v : Volume) (m : VolumeMessage) (w u : W)
      → report_created cl source_vol_id s v w ≡ (ok m, u)
      → m.volume_id ≡ v.id
  unfolding report_created convert_volume_type
  report_created_id v m w u h = ground arith

  report_created-Handled :
      (f : Catalogue) (name : String) (v : Volume) (w : W)
      → IsUnique (view w)
      → Extends f (view w)
      → Serves (view w) name v.id
      → Handled view f
          (λ (m : VolumeMessage). m.volume_id)
          name
          (report_created cl source_vol_id s v w)
  report_created-Handled f name v w unique extends serves =
      reported (report_created cl source_vol_id s v w)
        (report_created-IsQuiet view s cl source_vol_id only_reads v w)
        (λ m u e. report_created_id v m w u e) refl
    where
      reported :
          (p : Outcome VolumeMessage × W)
          → view p.1 ≡ view w
          → ((m : VolumeMessage) (u : W)
              → report_created cl source_vol_id s v w ≡ (ok m, u)
              → m.volume_id ≡ v.id)
          → report_created cl source_vol_id s v w ≡ p
          → Handled view f (λ (m : VolumeMessage). m.volume_id) name p
      reported (ok m, u) same ids e = rw (same, ids m u e) (unique, extends, serves)
      reported (err x, u) same ids e = rw same (unique, extends)

  answered-Handled :
      (f : Catalogue) (name : String) (p : Outcome Volume × W)
      → Handled view f (λ (v : Volume). v.id) name p
      → Handled view f
          (λ (m : VolumeMessage). m.volume_id)
          name
          (continue p.0 (λ v. report_created cl source_vol_id s v) p.1)
  answered-Handled f name (ok v, u) (unique, extends, serves) =
      report_created-Handled f name v u unique extends serves
  answered-Handled f name (err e, u) h = h

  looked_up-Handled :
      (r : CreateVolumeRequest) (z : Sizes) (f : Catalogue) (p : Outcome Found × W)
      → IsUnique f
      → FindsIn view f (λ v. v.name ≡ r.name) true p
      → Handled view f
          (λ (m : VolumeMessage). m.volume_id)
          r.name
          (continue p.0
            (λ found.
              existing_or_new cl source_vol_id s r z found >>= report_created cl source_vol_id s)
            p.1)
  looked_up-Handled r z f (ok found, u) unique (same, finds) =
      answered-Handled f r.name (existing_or_new cl source_vol_id s r z found u) (
        subst
          (λ g.
            Handled view g (λ (v : Volume). v.id) r.name
              (existing_or_new cl source_vol_id s r z found u))
          same (existing_or_new-Handled r z found u (rw same unique) (rw same finds)))
  looked_up-Handled r z f (err e, u) unique same = rw same (unique, λ n y h. h)

  pub create_body-Handled :
      (r : CreateVolumeRequest) (w : W)
      → truthy r.name ≡ true
      → IsUnique (view w)
      → Handled view
          (view w)
          (λ (m : VolumeMessage). m.volume_id)
          r.name
          (create_body cl source_vol_id s r w)
  unfolding create_body
  create_body-Handled r w given unique =
      quiet-Handled view (view w) unique r.name (λ (m : VolumeMessage). m.volume_id)
        (calculate_size r.capacity_range w) _ (calculate_size-IsQuiet view r.capacity_range w)
        (λ z u same.
          quiet-Handled view (view w) unique r.name (λ (m : VolumeMessage). m.volume_id)
            (validate_requirements cl source_vol_id s r u) _
            (validate_requirements-IsQuiet view s cl source_vol_id r u ∙ same)
            (λ t x still.
              looked_up-Handled r z (view w) (get_vol cl s none (some r.name) x) unique (
                subst
                  (λ g.
                    FindsIn view g (λ v. v.name ≡ r.name) true (get_vol cl s none (some r.name) x))
                  still (get_vol_by_name cl s view laws x r.name given (rw still unique)))))
