-- ===== src/Rpc/Served.antt =====
-- A handler with the decorators `debuggable`, `logrpc` and `require` of ember_csi/common.py, in the order in
-- which the methods of ember_csi/base.py have them.
pub mod Outcomes
use ember_csi.Base.{String, Bool, Option, List}
use ember_csi.Rpc.{Exec, require}
use ember_csi.Rpc.Debugging.{Debugger, debuggable}
use ember_csi.Rpc.Logging.{Entry, Message, Response, dolog}

-- `library` and `debug_on` are the globals `DEBUG_LIBRARY` and `DEBUG_ON`, and `fields` the arguments of
-- `require`.
module _ {W Req Resp : Type 0} (set_trace : Debugger → Exec (W × List Entry) (Unit {0}))
    (list_fields : Req → List String) (view : Req → Message) (view_response : Resp → Response) where
  unfoldable pub served :
      Option Debugger
      → Bool
      → String
      → List String
      → (Req → Exec W Resp)
      → Req
      → Exec (W × List Entry) Resp
  served library debug_on method fields f =
      debuggable set_trace library debug_on
        (dolog view view_response method (require fields list_fields f))
