-- ===== src/Rpc/Logging.antt =====
-- The decorator `logrpc` of ember_csi/common.py. The log is a list with the last entry first; the times
-- that the entries also print are left out, and so is the context of the logging library. An exception has
-- a message, as in Python 2.
pub mod Transparent
use ember_csi.Base.{
  String, ◌<>◌, truthy, join, Bool, true, false, Option, none, some, List, [], ◌∷◌, if◌then◌else◌,
}
use ember_csi.Base.Dict
use ember_csi.Base.Dict.{Dict}
use ember_csi.Base.Split.{nonempty, lines}
use ember_csi.Rpc.{Code, Fault, abort, exited, diverged, Outcome, ok, err, Exec}

-- `failed` has the name of the status code and its details, `crashed` the message and the traceback.
pub data Entry : Type 0 where
  called : String → String → Entry
  with_params : String → Entry
  failed : String → Code → String → Entry
  crashed : String → Fault → Entry
  served : String → String → Entry
  returned : String → Entry

-- `'\t' + '\n\t'.join(filter(None, str(what).split('\n')))`
unfoldable pub tab : String → String
tab what = "\t" <> join "\n\t" (nonempty (lines what))

-- The fields of a message by their names, as far as they are texts, and `str(message)`.
pub record Message : Type 0 where
  pub fields : Dict String
  pub shown : String
  pub is_listed : Bool

abbrev first_field : Dict String → List String → String
first_field fields [] = ""
first_field fields (p ∷ ps) =
    let rest = first_field fields ps in
    elim (Dict.lookup p fields) [ none ↦ rest | some v ↦ " " <> v ]

unfoldable pub get_idempotent_id : Message → String
unfolding Dict.lookup
get_idempotent_id m = first_field m.fields ("name" ∷ "id" ∷ "volume_id" ∷ "snapshot_id" ∷ [])

-- A response, with the messages in its fields `volume` and `snapshot`, if it has them.
pub record Response : Type 0 where
  pub message : Message
  pub volume : Option Message
  pub snapshot : Option Message

abbrev pub id_text : Message → String
id_text m = " (id =" <> (get_idempotent_id m <> ")")

abbrev pub first_id : List (Option Message) → String
first_id [] = ""
first_id (none ∷ ms) = first_id ms
first_id (some m ∷ ms) = id_text m

unfoldable pub get_response_id : Response → String
get_response_id r = first_id (r.volume ∷ r.snapshot ∷ [])

-- `tab(result) if str(result) else 'nothing'`
unfoldable pub result_text : String → String
result_text shown = if truthy shown then tab shown else "nothing"

unfoldable pub params_text : Message → String
params_text m = if m.is_listed then " params:\n" <> tab m.shown else "out params"

unfoldable pub log_outcome :
    {Resp : Type 0} → (Resp → Response) → String → Outcome Resp → List Entry → List Entry
log_outcome view method (ok r) log =
    returned (tab (result_text (view r).message.shown))
    ∷ served method (get_response_id (view r))
    ∷ log
log_outcome view method (err (abort c details)) log = failed method c details ∷ log
log_outcome view method (err (exited n)) log = log
log_outcome view method (err diverged) log = log
log_outcome view method (err e) log = crashed method e ∷ log

-- The entries before the call of the handler.
abbrev pub opening : Message → String → List Entry → List Entry
opening m method log = with_params (params_text m) ∷ called method (get_idempotent_id m) ∷ log

unfoldable pub dolog :
    {W Req Resp : Type 0}
    → (Req → Message)
    → (Resp → Response)
    → String
    → (Req → Exec W Resp)
    → Req
    → Exec (W × List Entry) Resp
dolog view view_response method f r (w, log) =
    let (result, u) = f r w in
    (result, (u, log_outcome view_response method result (opening (view r) method log)))
