-- ===== src/Workarounds/Balance.antt =====
-- The threads that the replaced `current_thread` of ember_csi/workarounds.py keeps for greenlets.
use ember_csi.Base.{
  ℕ, ◌≡◌, ◌↔◌, refl, subst, Bool, true, false, ◌||◌, none, some, List, [], ◌∷◌, eqb, arith,
  if◌then◌else◌,
}
use ember_csi.Workarounds.{
  Greenlet, Surroundings, Locals, find_thread, entries, add_thread, green_current, current_thread,
  remove_thread, cleanup,
}

abbrev pub is_linked : ℕ → List ℕ → Bool
is_linked n [] = false
is_linked n (k ∷ ks) = eqb k n || is_linked n ks

abbrev unlink : ℕ → List ℕ → List ℕ
unlink n [] = []
unlink n (k ∷ ks) = let rest = unlink n ks in if eqb k n then rest else k ∷ rest

abbrev ids : {T : Type 0} → List (ℕ × T) → List ℕ
ids [] = []
ids ((k, t) ∷ es) = k ∷ ids es

module _ {T : Type 0} (green_thread : Greenlet → T) where
  -- Calls of `current_thread`, and ends of greenlets that are linked to, which call `cleanup`.
  pub data Reach : Locals T → Type 0 where
    start : Reach (record { active = none; linked = [] })
    called :
        (env : Surroundings T) {s : Locals T}
        → Reach s
        → Reach (current_thread green_thread env s).1
    ended :
        (n : ℕ) {s u : Locals T}
        → is_linked n s.linked ≡ true
        → cleanup n s ≡ some u
        → Reach s
        → Reach (record u { linked = unlink n s.linked })

  -- The entries are those of the greenlets that are linked to, in the same order.
  abbrev IsBalanced : Locals T → Type 0
  IsBalanced s = ids (entries s) ≡ s.linked

  current_thread-IsBalanced :
      (env : Surroundings T) (s : Locals T)
      → IsBalanced s
      → IsBalanced (current_thread green_thread env s).1
  unfolding current_thread green_current add_thread entries
  current_thread-IsBalanced env s h = ground arith

  remove_ids : (n : ℕ) (es : List (ℕ × T)) → ids (remove_thread n es) ≡ unlink n (ids es)
  unfolding remove_thread
  remove_ids n [] = refl
  remove_ids n ((k, t) ∷ es) = ground (arith, remove_ids n es)

  find_linked :
      (n : ℕ) (es : List (ℕ × T)) → (find_thread n es ≡ none) ↔ (is_linked n (ids es) ≡ false)
  unfolding find_thread
  find_linked n [] = ((λ e. refl), λ e. refl)
  find_linked n ((k, t) ∷ es) = ground (arith, find_linked n es)

  find_removed : (n : ℕ) (es : List (ℕ × T)) → find_thread n (remove_thread n es) ≡ none
  unfolding find_thread remove_thread
  find_removed n [] = refl
  find_removed n ((k, t) ∷ es) = ground (arith, find_removed n es)

  Reach-IsBalanced : (s : Locals T) → Reach s → IsBalanced s
  unfolding entries cleanup
  Reach-IsBalanced _ start = refl
  Reach-IsBalanced _ (called env {s} before) =
      current_thread-IsBalanced env s (Reach-IsBalanced s before)
  Reach-IsBalanced _ (ended n {s} {u} linked e before) =
      ground (arith, e, Reach-IsBalanced s before, remove_ids n (entries s))

  -- Whatever threads ask for their current thread and end: a thread is kept for a greenlet exactly while the
  -- greenlet will call `cleanup` when it ends, so none is kept longer.
  pub Reach_kept :
      (s : Locals T) (n : ℕ)
      → Reach s
      → (find_thread n (entries s) ≡ none) ↔ (is_linked n s.linked ≡ false)
  Reach_kept s n reach =
      subst (λ ks. (find_thread n (entries s) ≡ none) ↔ (is_linked n ks ≡ false))
        (Reach-IsBalanced s reach) (find_linked n (entries s))

  -- In such a state `cleanup` never fails for a greenlet that calls it, and leaves no thread for it.
  pub Reach-cleanup :
      (s : Locals T) (n : ℕ)
      → Reach s
      → is_linked n s.linked ≡ true
      → (u : Locals T) × (cleanup n s ≡ some u) × (find_thread n (entries u) ≡ none)
  unfolding cleanup entries
  Reach-cleanup s n reach linked = (
    record s { active = some (remove_thread n (entries s)) },
    ground (arith, Reach_kept s n reach, linked),
    find_removed n (entries s),
  )

  -- A greenlet that can be linked to, and that `threading.enumerate` does not list at first, gets its own new
  -- thread, and every later call in it gives the same thread and changes nothing.
  pub current_thread_again :
      (env env' : Surroundings T) (g : Greenlet) (s : Locals T)
      → env.current ≡ some g
      → env'.current ≡ some g
      → g.can_link ≡ true
      → find_thread g.id (entries s) ≡ none
      → find_thread g.id env.enumerated ≡ none
      → (current_thread green_thread env s).0 ≡ green_thread g
        × current_thread green_thread env' (current_thread green_thread env s).1
          ≡ current_thread green_thread env s
  unfolding current_thread green_current add_thread entries find_thread
  current_thread_again env env' g s now later can_link unkept unlisted = ground (arith, now, later)
