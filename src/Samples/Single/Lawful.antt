-- ===== src/Samples/Single/Lawful.antt =====
-- The backend with room for one volume keeps the laws that the catalogue relies on.
use ember_csi.Base.{
  ◌≡◌, refl, fun_ext, subst, inl, String, ◌==◌, eq_iff, Bool, true, false, ◌&&◌, Option, none, some,
  [], ◌∷◌, arith, if◌then◌else◌,
}
use ember_csi.Rpc.{missing_resource, Outcome, ok, err}
use ember_csi.Cinder.{Volume}
use ember_csi.Cinder.Laws.{Knows, Lists, Makes, Replaces, Changed, Changes, Refreshed, CinderLaws}
use ember_csi.Samples.{volume}
use ember_csi.Samples.Single.{kept, listed, added, refreshed, put, single_store}

keyed : (w : Option Volume) (n : String) (v : Volume) → kept w n ≡ some v → v.id ≡ n
keyed none n v at = ground arith
keyed (some x) n v at = ground (arith, at, eq_iff x.id n)

lists_by_id :
    (id : String) (w : Option Volume) → Lists (kept w) (λ v. v.id ≡ id) (listed (some id) none w)
lists_by_id id none = record { sound = tt; complete = λ n v at passes. ground arith; distinct = tt }
lists_by_id id (some x) = go (id == x.id) refl
  where
    go :
        (b : Bool)
        → (id == x.id) ≡ b
        → Lists (kept (some x)) (λ v. v.id ≡ id) (if b && true then x ∷ [] else [])
    go true e = record {
      sound = ((ground (arith, eq_iff x.id x.id), ground (arith, eq_iff id x.id)), tt);
      complete = λ n v at passes. inl (ground (arith, at, eq_iff x.id n));
      distinct = (tt, tt);
    }
    go false e = record {
      sound = tt;
      complete = λ n v at passes. ground (arith, at, passes, eq_iff x.id n, eq_iff id x.id);
      distinct = tt;
    }

lists_by_name :
    (name : String) (w : Option Volume)
    → Lists (kept w) (λ v. v.name ≡ name) (listed none (some name) w)
lists_by_name name none = record {
  sound = tt;
  complete = λ n v at passes. ground arith;
  distinct = tt;
}
lists_by_name name (some x) = go (name == x.name) refl
  where
    go :
        (b : Bool)
        → (name == x.name) ≡ b
        → Lists (kept (some x)) (λ v. v.name ≡ name) (if b then x ∷ [] else [])
    go true e = record {
      sound = ((ground (arith, eq_iff x.id x.id), ground (arith, eq_iff name x.name)), tt);
      complete = λ n v at passes. inl (ground (arith, at, eq_iff x.id n));
      distinct = (tt, tt);
    }
    go false e = record {
      sound = tt;
      complete = λ n v at passes. ground (arith, at, passes, eq_iff x.id n, eq_iff name x.name);
      distinct = tt;
    }

added-Makes : (name : String) (w : Option Volume) → Makes kept (kept w) name (added name w)
added-Makes name none = (some (volume name name "available"), (refl, refl, refl), (refl, refl))
added-Makes name (some x) = (none, refl, tt)

refreshed-Refreshed :
    (v : Volume) (w : Option Volume) → Knows (kept w) v → Refreshed (kept w) v (refreshed v w).0
refreshed-Refreshed v none known = refl
refreshed-Refreshed v (some x) known = go (x.id == v.id) refl
  where
    go :
        (b : Bool)
        → (x.id == v.id) ≡ b
        → Refreshed (kept (some x)) v (if b then ok x else err missing_resource)
    go true e = (ground (arith, eq_iff x.id v.id), known x (ground arith))
    go false e = ground arith

target_kept :
    (x v : Volume) (target : Option Volume)
    → (x.id == v.id) ≡ true
    → Replaces v target
    → kept target ≡ (λ n. if v.id == n then target else kept (some x) n)
target_kept x v none e fits =
    fun_ext λ n. ground (arith, eq_iff x.id n, eq_iff v.id n, eq_iff x.id v.id)
target_kept x v (some z) e (ids, names) =
    fun_ext λ n. ground (arith, eq_iff x.id n, eq_iff v.id n, eq_iff x.id v.id, eq_iff z.id n)

refreshed_quiet : (v : Volume) (w : Option Volume) → kept (refreshed v w).1 ≡ kept w
refreshed_quiet v none = refl
refreshed_quiet v (some x) = refl

-- The target is of the volume's id and name, if there is one.
put-Changes :
    (v : Volume) (target : Option Volume)
    → Replaces v target
    → Changes kept v target (λ w. put v target w)
put-Changes v target fits none known = (none, tt, (fun_ext λ n. ground arith), tt)
put-Changes v target fits (some x) known = go (x.id == v.id) refl
  where
    go :
        (b : Bool)
        → (x.id == v.id) ≡ b
        → (let (r, u) : Outcome (Unit {0}) × Option Volume =
              if b then (ok tt, target) else (err missing_resource, some x) in
            (o : Option Volume) × Replaces v o
            × (kept u ≡ (λ n. if v.id == n then o else kept (some x) n))
            × Changed r target o)
    go true e = (target, fits, target_kept x v target e fits, refl)
    go false e = (
      none,
      tt,
      (fun_ext λ n. ground (arith, eq_iff x.id n, eq_iff v.id n, eq_iff x.id v.id)),
      tt,
    )

pub single_store_laws : CinderLaws single_store (some "lvm") kept
single_store_laws = record {
  keyed = λ w n v at. keyed w n v at;
  reads_quiet = λ id name w. refl;
  by_id = λ id w vs given at.
      subst (Lists (kept w) (λ v. v.id ≡ id)) (ground (arith, at)) (lists_by_id id w);
  by_name = λ name w vs given at.
      subst (Lists (kept w) (λ v. v.name ≡ name)) (ground (arith, at)) (lists_by_name name w);
  snapshots_quiet = λ v w. refl;
  get_snapshots_quiet = λ a b c w. refl;
  sleep_quiet = λ n w. refl;
  sleeps = λ n w. refl;
  refresh_quiet = λ v w. refreshed_quiet v w;
  refreshed = λ v w known. refreshed-Refreshed v w known;
  creates = λ size name p w. added-Makes name w;
  clones = λ v name size p w. added-Makes name w;
  creates_from = λ x name p w. added-Makes name w;
  deletes = λ v. put-Changes v none tt;
  saves = λ v. put-Changes v (some v) (refl, refl);
}
