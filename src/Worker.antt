-- ===== src/Worker.antt =====
-- `Worker` of ember_csi/common.py: the decorator `Worker.unique`, which keeps two requests from working on
-- the same resource. The threads of the server are interleaved in any order, one access to the shared
-- dicts at a time; `dict.setdefault`, `dict.get` and `del` are atomic.
pub mod Exclusive
use ember_csi.Base.{
  ℕ, ◌+◌, ◌≡◌, ◌≢◌, String, ◌==◌, Bool, true, false, Option, some, none, eqb, if◌then◌else◌,
}

-- `(my_method, my_thread)`
abbrev pub Owner : Type 0
Owner = String × ℕ

-- `current_workers`, `locks`, which of the lock objects are held, and the next new lock object.
pub record Shared : Type 0 where
  pub current_workers : String → Option Owner
  pub locks : String → Option ℕ
  pub held : ℕ → Bool
  pub fresh : ℕ

-- `d[key] = v` and `del d[key]`, for a dict as a function.
abbrev pub update_key : (String → Option Owner) → String → Option Owner → String → Option Owner
update_key d key v k = if key == k then v else d k

abbrev pub update_lock : (String → Option ℕ) → String → ℕ → String → Option ℕ
update_lock d key v k = if key == k then some v else d k

abbrev pub update_at {ℓ} : {A : Type ℓ} → (ℕ → A) → ℕ → A → ℕ → A
update_at f i v j = if eqb i j then v else f j

-- Where a thread stands in `wrapper`, with its method, its `worker_id` and its lock; `none` stands for
-- the context manager `noop_cm`.
pub data Pc : Type 0 where
  idle : Pc
  looking : String → String → Pc  -- before `cls.locks.get(my_method)`
  creating : String → String → Pc  -- before `cls.locks[my_method] = threading.Lock()`
  waiting : String → String → ℕ → Pc  -- before the lock is taken
  entered : String → String → Option ℕ → Pc  -- before `setdefault`
  running : String → String → Option ℕ → Pc  -- in the handler
  leaving : Option ℕ → Pc  -- before the lock is released

-- One step of the thread `t`. A handler that returns and one that raises leave by the same `finally`.
pub data Move (abort_duplicates : Bool) (t : ℕ) (s : Shared) : Pc → Shared → Pc → Type 0 where
  start_unlocked :
      (m id : String)
      → abort_duplicates ≡ true
      → Move abort_duplicates t s idle s (entered m id none)
  start :
      (m id : String) → abort_duplicates ≡ false → Move abort_duplicates t s idle s (looking m id)
  find_lock :
      {m id : String} (l : ℕ)
      → s.locks m ≡ some l
      → Move abort_duplicates t s (looking m id) s (waiting m id l)
  miss_lock :
      {m id : String}
      → s.locks m ≡ none
      → Move abort_duplicates t s (looking m id) s (creating m id)
  create_lock :
      {m id : String}
      → Move abort_duplicates t s
          (creating m id)
          (record s { locks = update_lock s.locks m s.fresh; fresh = s.fresh + 1 })
          (waiting m id s.fresh)
  acquire :
      {m id : String} {l : ℕ}
      → s.held l ≡ false
      → Move abort_duplicates t s
          (waiting m id l)
          (record s { held = update_at s.held l true })
          (entered m id (some l))
  claim :
      {m id : String} {l : Option ℕ}
      → s.current_workers id ≡ none
      → Move abort_duplicates t s
          (entered m id l)
          (record s { current_workers = update_key s.current_workers id (some (m, t)) })
          (running m id l)
  keep :
      {m id : String} {l : Option ℕ}
      → s.current_workers id ≡ some (m, t)
      → Move abort_duplicates t s (entered m id l) s (running m id l)
  refuse :
      {m id : String} {l : Option ℕ} (o : Owner)
      → s.current_workers id ≡ some o
      → o ≢ (m, t)
      → Move abort_duplicates t s (entered m id l) s (leaving l)
  finish :
      {m id : String} {l : Option ℕ}
      → Move abort_duplicates t s
          (running m id l)
          (record s { current_workers = update_key s.current_workers id none })
          (leaving l)
  release :
      {l : ℕ}
      → Move abort_duplicates t s
          (leaving (some l))
          (record s { held = update_at s.held l false })
          idle
  leave : Move abort_duplicates t s (leaving none) s idle

-- The threads of the server, by their identifiers.
pub record System : Type 0 where
  pub shared : Shared
  pub pc : ℕ → Pc

pub data Step (abort_duplicates : Bool) (s : System) : System → Type 0 where
  pick :
      (t : ℕ) {u : Shared} {p : Pc}
      → Move abort_duplicates t s.shared (s.pc t) u p
      → Step abort_duplicates s (record { shared = u; pc = update_at s.pc t p })

abbrev pub init : System
init = record {
  shared = record { current_workers = λ _. none; locks = λ _. none; held = λ _. false; fresh = 0 };
  pc = λ _. idle;
}

pub data Reach (abort_duplicates : Bool) : System → Type 0 where
  here : Reach abort_duplicates init
  next :
      {s u : System}
      → Reach abort_duplicates s
      → Step abort_duplicates s u
      → Reach abort_duplicates u
