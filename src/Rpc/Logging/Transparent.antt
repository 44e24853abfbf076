-- ===== src/Rpc/Logging/Transparent.antt =====
-- What the decorator `logrpc` of ember_csi/common.py changes: the log.
use ember_csi.Base.{◌≡◌, refl, String, ◌++◌, List, [], ◌∷◌}
use ember_csi.Rpc.{abort, exited, diverged, Outcome, ok, err, Exec}
use ember_csi.Rpc.Logging.{Entry, Message, Response, opening, log_outcome, dolog}

log_outcome_grows :
    {Resp : Type 0} (view : Resp → Response) (method : String) (r : Outcome Resp) (log : List Entry)
    → (es : List Entry) × (log_outcome view method r log ≡ es ++ log)
unfolding log_outcome
log_outcome_grows view method (ok r) log = (_ ∷ _ ∷ [], refl)
log_outcome_grows view method (err (abort c d)) log = (_ ∷ [], refl)
log_outcome_grows view method (err (exited n)) log = ([], refl)
log_outcome_grows view method (err diverged) log = ([], refl)
log_outcome_grows view method (err e) log = (_ ∷ [], refl)

-- A logged handler returns, raises and changes what the handler itself does, for every handler and
-- request, and the log only grows: by the call with its identifier and its parameters, and then by
-- what became of it.
pub dolog_transparent :
    {W Req Resp : Type 0} (view : Req → Message) (view_response : Resp → Response) (method : String)
    (f : Req → Exec W Resp) (r : Req) (w : W) (log : List Entry)
    → (es : List Entry) × (dolog view view_response method f r (w, log)
        ≡ ((f r w).0, ((f r w).1, es ++ opening (view r) method log)))
unfolding dolog
dolog_transparent view view_response method f r w log =
    let (es, grown) =
      log_outcome_grows view_response method (f r w).0 (opening (view r) method log) in
    (es, rw grown refl)
