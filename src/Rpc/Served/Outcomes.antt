-- ===== src/Rpc/Served/Outcomes.antt =====
-- What a decorated handler answers, changes and logs.
use ember_csi.Base.{
  ◌≡◌, refl, ◌∙◌, String, true, false, elem, Option, none, some, List, ◌∷◌, ◌++◌, All,
}
use ember_csi.Rpc.{Fault, abort, invalid_argument, err, Exec, require, IsAbort}
use ember_csi.Rpc.Required.{require-present, require-missing}
use ember_csi.Rpc.Debugging.{Debugger, debug, debuggable}
use ember_csi.Rpc.Logging.{Entry, failed, Message, Response, opening, log_outcome, dolog}
use ember_csi.Rpc.Logging.Transparent.{dolog_transparent}
use ember_csi.Rpc.Served.{served}

module _ {W Req Resp : Type 0} (set_trace : Debugger → Exec (W × List Entry) (Unit {0}))
    (list_fields : Req → List String) (view : Req → Message) (view_response : Resp → Response) where
  -- With debugging off the debugger is not called, with a library or without one.
  undebugged :
      (library : Option Debugger) (f : Req → Exec (W × List Entry) Resp) (r : Req)
      (x : W × List Entry)
      → debuggable set_trace library false f r x ≡ f r x
  unfolding debuggable debug
  undebugged none f r x = refl
  undebugged (some library) f r x = refl

  refused :
      (method : String) (fields : List String) (f : Req → Exec W Resp) (r : Req) (k : String)
      (w : W) (log : List Entry)
      → elem k fields ≡ true
      → elem k (list_fields r) ≡ false
      → (d : String) × (dolog view view_response method (require fields list_fields f) r (w, log)
          ≡ (
            err (abort invalid_argument d),
            (w, failed method invalid_argument d ∷ opening (view r) method log),
          ))
  unfolding dolog log_outcome
  refused method fields f r k w log required absent =
      let (e, is_abort, same) = require-missing fields list_fields f r k w required absent in
      go e is_abort same
    where
      go :
          (e : Fault)
          → IsAbort invalid_argument e
          → require fields list_fields f r w ≡ (err e, w)
          → (d : String) × (dolog view view_response method
                (require fields list_fields f)
                r
                (w, log)
              ≡ (
                err (abort invalid_argument d),
                (w, failed method invalid_argument d ∷ opening (view r) method log),
              ))
      go (abort c d) code same = (d, rw (same, code) refl)
      go e code same = absurd code

  -- With debugging off, a request that has all required fields gets the answer of the handler, which
  -- is run once and on the state as it is. The log grows, by the call and its parameters first.
  pub served_passes :
      (library : Option Debugger) (method : String) (fields : List String) (f : Req → Exec W Resp)
      (r : Req) (w : W) (log : List Entry)
      → All (λ k. elem k (list_fields r) ≡ true) fields
      → (es : List Entry) × (served set_trace list_fields view view_response library false method
            fields f r
            (w, log)
          ≡ ((f r w).0, ((f r w).1, es ++ opening (view r) method log)))
  unfolding served
  served_passes library method fields f r w log present =
      let handler = require fields list_fields f in
      let plain = undebugged library (dolog view view_response method handler) r (w, log) in
      let (es, same) = dolog_transparent view view_response method handler r w log in
      (es, plain ∙ same ∙ rw (require-present fields list_fields f r w present) refl)

  -- With debugging off, a request that lacks a required field is refused with INVALID_ARGUMENT: the
  -- state is as it was, and the log has the call, its parameters and the refusal with its details.
  pub served_refused :
      (library : Option Debugger) (method : String) (fields : List String) (f : Req → Exec W Resp)
      (r : Req) (w : W) (log : List Entry) (k : String)
      → elem k fields ≡ true
      → elem k (list_fields r) ≡ false
      → (d : String) × (served set_trace list_fields view view_response library false method fields
            f r
            (w, log)
          ≡ (
            err (abort invalid_argument d),
            (w, failed method invalid_argument d ∷ opening (view r) method log),
          ))
  unfolding served
  served_refused library method fields f r w log k required absent =
      let plain =
        undebugged library (dolog view view_response method (require fields list_fields f)) r
          (w, log) in
      let (d, same) = refused method fields f r k w log required absent in (d, plain ∙ same)
