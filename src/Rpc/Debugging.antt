-- ===== src/Rpc/Debugging.antt =====
-- The decorator `debuggable` of ember_csi/common.py, and the choice of it by `setup_debug`.
use ember_csi.Base.{ℕ, String, ◌==◌, Bool, not, Option, none, some, if◌then◌else◌}
use ember_csi.Rpc.{exited, Outcome, ok, err, Exec, pure, ◌>>◌}

-- The modules `pdb` and `ember_csi.rpdb`, one of which is `DEBUG_LIBRARY`.
pub data Debugger : Type 0 where
  pdb rpdb : Debugger

-- `constants.ERROR_DEBUG_MODE`
abbrev pub error_debug_mode : ℕ
error_debug_mode = 13

-- No library goes with the decorator `no_debug`, a library with `debug`.
unfoldable pub setup_debug : String → Outcome (Option Debugger)
setup_debug mode =
    if mode == ""
    then ok none
    else if mode == "PDB"
    then ok (some pdb)
    else if mode == "RPDB"
    then ok (some rpdb)
    else err (exited error_debug_mode)

-- The handler of the signal that turns debugging on and off.
unfoldable pub toggle_debug : Bool → Bool
toggle_debug debug_on = not debug_on

module _ {W Req Resp : Type 0} (set_trace : Debugger → Exec W (Unit {0})) where
  -- `debug_on` is the value of `DEBUG_ON` at the call.
  unfoldable pub debug : Debugger → Bool → (Req → Exec W Resp) → Req → Exec W Resp
  debug library debug_on f r = do if debug_on then set_trace library else pure tt; f r

  unfoldable pub debuggable : Option Debugger → Bool → (Req → Exec W Resp) → Req → Exec W Resp
  debuggable none debug_on f = f
  debuggable (some library) debug_on f = debug library debug_on f
