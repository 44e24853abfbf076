-- ===== src/Examples/Workarounds.antt =====
-- Two greenlets that ask for their current thread.
use ember_csi.Base.{ℕ, ◌+◌, ◌≡◌, ◌↔◌, refl, true, false, none, some, [], ◌∷◌, List}
use ember_csi.Rpc.{ok}
use ember_csi.Workarounds.{
  Object, Method, native, proxy, my_doit, unproxied, unproxied_kwargs, Greenlet, Surroundings,
  Locals, find_thread, entries, add_thread, green_current, current_thread, cleanup,
}
use ember_csi.Workarounds.Balance.{
  Reach, start, called, is_linked, Reach_kept, Reach-cleanup, current_thread_again,
}

-- A thread is a number: its greenlet's id and 100.
abbrev green_thread : Greenlet → ℕ
green_thread g = g.id + 100

abbrev greenlet : ℕ → Greenlet
greenlet n = record { id = n; can_link = true }

abbrev within : ℕ → Surroundings ℕ
within n = record { current = some (greenlet n); native_thread = 1; enumerated = [] }

abbrev empty : Locals ℕ
empty = record { active = none; linked = [] }

abbrev after_one : Locals ℕ
after_one = (current_thread green_thread (within 7) empty).1

abbrev after_two : Locals ℕ
after_two = (current_thread green_thread (within 8) after_one).1

two_started : Reach green_thread after_two
two_started = called (within 8) (called (within 7) start)

Reach_kept_example :
    (find_thread 7 (entries after_two) ≡ none) ↔ (is_linked 7 after_two.linked ≡ false)
Reach_kept_example = Reach_kept green_thread after_two 7 two_started

is_linked_twice : is_linked 7 after_two.linked ≡ true
unfolding current_thread green_current add_thread find_thread entries
is_linked_twice = refl

cleanup_of_first :
    (u : Locals ℕ) × (cleanup 7 after_two ≡ some u) × (find_thread 7 (entries u) ≡ none)
cleanup_of_first = Reach-cleanup green_thread after_two 7 two_started is_linked_twice

second_call :
    (current_thread green_thread (within 7) empty).0 ≡ 107
    × current_thread green_thread (within 7) after_one
      ≡ current_thread green_thread (within 7) empty
unfolding find_thread entries
second_call =
    current_thread_again green_thread (within 7) (within 7) (greenlet 7) empty refl refl refl refl
      refl

-- A method that gives back what it is called with.
abbrev echo : Method ℕ ℕ (List (Object ℕ))
echo args kwargs w = (ok args, w)

-- A method of the proxied server is called with the objects, not with their proxies.
unproxied_call :
    my_doit echo (proxy (native 3) ∷ native 4 ∷ []) [] 0 ≡ (ok (native 3 ∷ native 4 ∷ []), 0)
unfolding my_doit unproxied unproxied_kwargs
unproxied_call = refl
