-- ===== src/Worker/Exclusive.antt =====
-- Mutual exclusion of the requests on one resource.
use ember_csi.Base.{ℕ, ◌≡◌, ◌↔◌, refl, String, eq_iff, Bool, some, arith}
use ember_csi.Worker.{
  Shared, Pc, running, update_at, Move, start_unlocked, start, find_lock, miss_lock, create_lock,
  acquire, claim, keep, refuse, finish, release, leave, System, Step, pick, Reach, here, next,
}

-- The thread works on `id` with the method `m`.
abbrev pub RunsAt : Pc → String → String → Type 0
RunsAt (running m id l) n i = (m ≡ n) × (id ≡ i)
RunsAt _ n i = ⊥

-- The entries of `current_workers` are those of the threads in their handlers.
record Owned (s : Shared) (pc : ℕ → Pc) : Type 0 where
  entry : (t : ℕ) (m id : String) → RunsAt (pc t) m id → s.current_workers id ≡ some (m, t)
  owner : (t : ℕ) (m id : String) → s.current_workers id ≡ some (m, t) → RunsAt (pc t) m id

module _ {b : Bool} {s : Shared} {pc : ℕ → Pc} (own : Owned s pc) (t : ℕ) where
  Move-entry :
      {p p' : Pc} {s' : Shared}
      → pc t ≡ p
      → Move b t s p s' p'
      → (j : ℕ) (m id : String) → RunsAt (update_at pc t p' j) m id
      → s'.current_workers id ≡ some (m, j)
  Move-entry e (start_unlocked _ _ _) j m id h = ground (arith, own.entry j m id)
  Move-entry e (start _ _ _) j m id h = ground (arith, own.entry j m id)
  Move-entry e (find_lock _ _) j m id h = ground (arith, own.entry j m id)
  Move-entry e (miss_lock _) j m id h = ground (arith, own.entry j m id)
  Move-entry e create_lock j m id h = ground (arith, own.entry j m id)
  Move-entry e (acquire _) j m id h = ground (arith, own.entry j m id)
  Move-entry e (claim {m = n} {id = i} free) j m id h =
      ground (arith, own.entry j m id, eq_iff i id)
  Move-entry e (keep {m = n} {id = i} mine) j m id h = ground (arith, own.entry j m id)
  Move-entry e (refuse _ _ _) j m id h = ground (arith, own.entry j m id)
  Move-entry e (finish {m = n} {id = i}) j m id h =
      ground (arith, own.entry j m id, own.entry t n i, eq_iff i id)
  Move-entry e release j m id h = ground (arith, own.entry j m id)
  Move-entry e leave j m id h = ground (arith, own.entry j m id)

  Move-owner :
      {p p' : Pc} {s' : Shared}
      → pc t ≡ p
      → Move b t s p s' p'
      → (j : ℕ) (m id : String) → s'.current_workers id ≡ some (m, j)
      → RunsAt (update_at pc t p' j) m id
  Move-owner e (start_unlocked _ _ _) j m id h = ground (arith, own.owner j m id)
  Move-owner e (start _ _ _) j m id h = ground (arith, own.owner j m id)
  Move-owner e (find_lock _ _) j m id h = ground (arith, own.owner j m id)
  Move-owner e (miss_lock _) j m id h = ground (arith, own.owner j m id)
  Move-owner e create_lock j m id h = ground (arith, own.owner j m id)
  Move-owner e (acquire _) j m id h = ground (arith, own.owner j m id)
  Move-owner e (claim {m = n} {id = i} free) j m id h =
      ground (arith, own.owner j m id, eq_iff i id)
  Move-owner e (keep {m = n} {id = i} mine) j m id h =
      ground (arith, own.owner j m id, own.owner t n i)
  Move-owner e (refuse _ _ _) j m id h = ground (arith, own.owner j m id)
  Move-owner e (finish {m = n} {id = i}) j m id h =
      ground (arith, own.owner j m id, own.entry t n i, eq_iff i id)
  Move-owner e release j m id h = ground (arith, own.owner j m id)
  Move-owner e leave j m id h = ground (arith, own.owner j m id)

Step-Owned : {b : Bool} {s u : System} → Step b s u → Owned s.shared s.pc → Owned u.shared u.pc
Step-Owned (pick t mv) own = record {
  entry = Move-entry own t refl mv;
  owner = Move-owner own t refl mv;
}

Reach-Owned : {b : Bool} {s : System} → Reach b s → Owned s.shared s.pc
Reach-Owned here = record { entry = λ t m id h. absurd h; owner = λ t m id h. absurd (cc h) }
Reach-Owned (next r st) = Step-Owned st (Reach-Owned r)

-- Whatever the interleaving, with or without the locks, two threads are never in handlers for the same
-- resource at the same time.
pub mutual_exclusion :
    {b : Bool} {s : System}
    → Reach b s
    → (i j : ℕ) (m n id : String) → RunsAt (s.pc i) m id
    → RunsAt (s.pc j) n id
    → i ≡ j
mutual_exclusion r i j m n id hi hj =
    let own = Reach-Owned r in ground (arith, own.entry i m id hi, own.entry j n id hj)

-- A thread in a handler finds its own entry when it leaves, so the `del` does not fail, and an entry is
-- there only while its thread is in the handler, so a resource is not blocked by a request that is over.
pub entries_exact :
    {b : Bool} {s : System}
    → Reach b s
    → (t : ℕ) (m id : String) → (s.shared.current_workers id ≡ some (m, t)) ↔ RunsAt (s.pc t) m id
entries_exact r t m id = let own = Reach-Owned r in (own.owner t m id, own.entry t m id)
