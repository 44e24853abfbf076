-- ===== src/Workarounds.antt =====
-- ember_csi/workarounds.py: the proxies of the gRPC server, the replaced `current_thread` of eventlet, and the
-- replaced setter of the Kubernetes client.
pub mod Balance
use ember_csi.Base.{ℕ, String, Bool, Option, none, some, List, [], ◌∷◌, eqb, map, if◌then◌else◌}
use ember_csi.Base.Dict.{Dict}
use ember_csi.Rpc.{Exec, pure, ◌>>=◌, ◌>>◌}

-- An object, or a `tpool.Proxy` of an object, which keeps it in `_obj`.
pub data Object (X : Type 0) : Type 0 where
  native : X → Object X
  proxy : Object X → Object X

-- `arg._obj if isinstance(arg, tpool.Proxy) else arg`
unfoldable pub unproxied : {X : Type 0} → Object X → Object X
unproxied (native x) = native x
unproxied (proxy o) = o

unfoldable pub unproxied_kwargs : {X : Type 0} → Dict (Object X) → Dict (Object X)
unfolding unproxied
unproxied_kwargs [] = []
unproxied_kwargs ((k, v) ∷ kwargs) = (k, unproxied v) ∷ unproxied_kwargs kwargs

abbrev pub Method : Type 0 → Type 0 → Type 0 → Type 0
Method W X R = List (Object X) → Dict (Object X) → Exec W R

-- `ServerProxy._my_doit`
unfoldable pub my_doit : {W X R : Type 0} → Method W X R → Method W X R
unfolding unproxied unproxied_kwargs
my_doit method args kwargs = method (map unproxied args) (unproxied_kwargs kwargs)

-- What `tpool.Proxy.__getattr__` gives: something that is called, or another value.
pub data Attribute (W X R : Type 0) : Type 0 where
  callable : Method W X R → Attribute W X R
  value : Object X → Attribute W X R

-- `ServerProxy.__getattr__`, for what `tpool.Proxy` has found.
unfoldable pub get_attr : {W X R : Type 0} → Attribute W X R → Attribute W X R
unfolding my_doit
get_attr (callable f) = callable (my_doit f)
get_attr (value o) = value o

-- The attributes of `server._state` that `grpc_eventlet` replaces.
pub record ServerState (X : Type 0) : Type 0 where
  pub server : Object X
  pub completion_queue : Object X

-- `ServerProxy` is a `tpool.Proxy` too.
unfoldable pub grpc_eventlet : {X : Type 0} → ServerState X → ServerState X
grpc_eventlet state = record {
  server = proxy state.server;
  completion_queue = proxy state.completion_queue;
}

-- A greenlet, by its `id`; one that is no `GreenThread` cannot be linked to.
pub record Greenlet : Type 0 where
  pub id : ℕ
  pub can_link : Bool

-- What a call finds: the greenlet that runs it, `g_threading._fixup_thread` of the native thread, and the
-- threads that `threading.enumerate` lists, with their `ident`.
pub record Surroundings (T : Type 0) : Type 0 where
  pub current : Option Greenlet
  pub native_thread : T
  pub enumerated : List (ℕ × T)

-- The dict `__threadlocal.active`, which may be missing, and the greenlets that call `cleanup` when they end.
pub record Locals (T : Type 0) : Type 0 where
  pub active : Option (List (ℕ × T))
  pub linked : List ℕ

module _ {T : Type 0} where
  -- `active.get(g_id)`, and the first thread of that `ident`.
  unfoldable pub find_thread : ℕ → List (ℕ × T) → Option T
  find_thread n [] = none
  find_thread n ((k, t) ∷ rest) = if eqb k n then some t else find_thread n rest

  -- `try: active = __threadlocal.active`, with the handler of AttributeError.
  unfoldable pub entries : Locals T → List (ℕ × T)
  entries s = elim s.active [ none ↦ [] | some es ↦ es ]

  -- The part that adds the greenlet, for which there is no thread; `green_thread` is the constructor
  -- `g_threading._GreenThread`.
  unfoldable pub add_thread : (Greenlet → T) → Surroundings T → Greenlet → Locals T → T × Locals T
  unfolding entries
  add_thread green_thread env g s =
      if g.can_link
      then (
        green_thread g,
        record { active = some ((g.id, green_thread g) ∷ entries s); linked = g.id ∷ s.linked },
      )
      else (env.native_thread, record s { active = some (entries s) })

  abbrev pub or_else : Option T → Locals T → T × Locals T → T × Locals T
  or_else none s other = other
  or_else (some t) s other = (t, s)

  unfoldable pub green_current :
      (Greenlet → T) → Surroundings T → Greenlet → Locals T → T × Locals T
  unfolding find_thread add_thread entries
  green_current green_thread env g s =
      let started = record s { active = some (entries s) } in
      or_else (find_thread g.id (entries s)) started
        (or_else (find_thread g.id env.enumerated) started (add_thread green_thread env g s))

  -- `current_thread`
  unfoldable pub current_thread : (Greenlet → T) → Surroundings T → Locals T → T × Locals T
  unfolding green_current
  current_thread green_thread env s = elim env.current [
    | none ↦ (env.native_thread, s)
    | some g ↦ green_current green_thread env g s
  ]

  unfoldable pub remove_thread : ℕ → List (ℕ × T) → List (ℕ × T)
  remove_thread n [] = []
  remove_thread n ((k, t) ∷ rest) =
      let others = remove_thread n rest in if eqb k n then others else (k, t) ∷ others

  -- `cleanup`, which a greenlet of this id calls when it ends: `del active[g_id]`. A missing entry is a
  -- KeyError, which is `none`.
  unfoldable pub cleanup : ℕ → Locals T → Option (Locals T)
  unfolding find_thread remove_thread entries
  cleanup n s = elim (find_thread n (entries s)) [
    | none ↦ none
    | some _ ↦ some (record s { active = some (remove_thread n (entries s)) })
  ]

-- The status of a custom resource definition in the Kubernetes client, with its setter `conditions`, which the
-- original refuses for `None`.
pub record CrdStatus (X : Type 0) : Type 0 where
  pub conditions : Option (List X)

unfoldable pub set_conditions : {X : Type 0} → Option (List X) → CrdStatus X → CrdStatus X
set_conditions conditions s = record s { conditions = conditions }

-- What `eventlet_issue_147_172` uses of eventlet, and `setattr(threading, name, current_thread)`.
pub record Eventlet (W : Type 0) : Type 0 where
  pub is_before_0_23 : Bool
  pub is_monkey_patched : String → Exec W Bool
  pub monkey_patch : Exec W (Unit {0})
  pub set_current_thread : String → Exec W (Unit {0})

unfoldable pub eventlet_issue_147_172 : {W : Type 0} → Eventlet W → Exec W (Unit {0})
eventlet_issue_147_172 e =
    if e.is_before_0_23
    then (do
      patched ← e.is_monkey_patched "thread"
      if patched then pure tt else e.monkey_patch
      e.set_current_thread "current_thread"
      e.set_current_thread "currentThread")
    else pure tt
