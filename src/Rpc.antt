-- ===== src/Rpc.antt =====
-- What a gRPC handler is: an action on a state that returns or raises. `context.abort` raises, so
-- it is one of the faults. What was written before a raise stays written.
-- Also `common.require` of ember_csi/common.py, the decorator that checks the request's fields.
pub mod Inversion
pub mod Required
pub mod Logging
pub mod Debugging
pub mod Served
pub mod Effects
use ember_csi.Base.{ℕ, ◌≡◌, String, ◌<>◌, Bool, true, false, List, [], ◌∷◌, elem, join}

-- The members of `grpc.StatusCode` that the servicers use.
pub data Code : Type 0 where
  invalid_argument not_found already_exists failed_precondition aborted out_of_range unknown : Code

-- `exited` is `SystemExit`, which `except Exception` does not catch; `diverged` says that a loop
-- is still running when the model's fuel is used up.
pub data Fault : Type 0 where
  abort : Code → String → Fault
  missing_resource os_error value_error type_error key_error index_error : Fault
  attribute_error : String → Fault
  process_error api_error : ℕ → Fault
  other : String → Fault
  exited : ℕ → Fault
  diverged : Fault

-- `e` is the abort with the status code `c`.
abbrev pub IsAbort : Code → Fault → Type 0
IsAbort c (abort d _) = d ≡ c
IsAbort c _ = ⊥

pub data Outcome {ℓ} (A : Type ℓ) : Type ℓ where
  ok : A → Outcome A
  err : Fault → Outcome A

abbrev pub Exec {ℓ} : Type ℓ → Type ℓ → Type ℓ
Exec W A = W → Outcome A × W

module _ {ℓ} {W A : Type ℓ} where
  abbrev pub pure : A → Exec W A
  pure a w = (ok a, w)

  abbrev pub raise : Fault → Exec W A
  raise e w = (err e, w)

  -- `context.abort(code, details)`
  abbrev pub abort_with : Code → String → Exec W A
  abort_with c details = raise (abort c details)

module _ {ℓ} {W A B : Type ℓ} where
  abbrev pub continue : Outcome A → (A → Exec W B) → Exec W B
  continue (ok a) f w = f a w
  continue (err e) f w = (err e, w)

  infixl 5 ◌>>=◌ ◌>>◌
  abbrev pub ◌>>=◌ : Exec W A → (A → Exec W B) → Exec W B
  ◌>>=◌ m f w = let (r, w') = m w in continue r f w'

  abbrev pub ◌>>◌ : Exec W A → Exec W B → Exec W B
  m >> n = m >>= λ _. n

-- An action on the first part of a larger state.
abbrev pub on_fst : {W X A : Type 0} → Exec W A → Exec (W × X) A
on_fst m (w, x) = let (r, w') = m w in (r, (w', x))

-- `try: m except Exception: handler`, and the faults that such a clause lets through.
abbrev pub handle_fault {ℓ} : {W A : Type ℓ} → Outcome A → Exec W A → Exec W A
handle_fault (ok a) handler w = (ok a, w)
handle_fault (err (exited n)) handler w = (err (exited n), w)
handle_fault (err diverged) handler w = (err diverged, w)
handle_fault (err e) handler w = handler w

abbrev pub try_except {ℓ} : {W A : Type ℓ} → Exec W A → Exec W A → Exec W A
try_except m handler w = let (r, w') = m w in handle_fault r handler w'

-- `if c: context.abort(code, details)`
abbrev pub abort_if : {W : Type 0} → Bool → Code → String → Exec W (Unit {0})
abort_if true c details = abort_with c details
abort_if false c details = pure tt

-- `fields - request_fields`
unfoldable pub missing_fields : List String → List String → List String
missing_fields [] present = []
missing_fields (f ∷ fs) present =
    let rest = missing_fields fs present in elim (elem f present) [ true ↦ rest | false ↦ f ∷ rest ]

unfoldable pub check_missing : {W : Type 0} → List String → Exec W (Unit {0})
check_missing [] = pure tt
check_missing (f ∷ fs) =
    abort_with invalid_argument ("Missing required fields: " <> join ", " (f ∷ fs))

-- `@common.require(*fields)`; `list_fields` gives the names that `request.ListFields()` lists.
unfoldable pub require :
    {W Req A : Type 0} → List String → (Req → List String) → (Req → Exec W A) → Req → Exec W A
require fields list_fields handler request = do
  check_missing (missing_fields fields (list_fields request))
  handler request
