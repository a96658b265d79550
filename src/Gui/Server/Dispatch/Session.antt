-- ===== src/Gui/Server/Dispatch/Session.antt =====
-- server.rs, `dispatch`: HELLO, DISCONNECT, SET_TITLE and SET_APP_ID.
use dunit_os.Prelude.{
  ℕ, ◌+◌, ◌-◌, ◌^◌, true, false, not, ◌||◌, List, [], ◌∷◌, length, ltb, ◌!=◌, if◌then◌else◌,
  bit_and,
}
use dunit_os.Prelude.Results.{◌>>◌, reject, ok}
use dunit_os.Gui.Wire.Codes.{
  ErrorCode, version_minor, feature_argb8888, formats_xrgb8888, formats_argb8888,
}
use dunit_os.Gui.Wire.Event
use dunit_os.Gui.Server.State.{Connection, ObjKind, active, require, app_id_ok, max_title_bytes}
use dunit_os.Gui.Server.Step.{World, Ctx, Step, error, done, settle}

-- `!v` of a `u64`.
abbrev pub complement64 : ℕ → ℕ
complement64 v = 2 ^ 64 - 1 - v

unfoldable pub welcome : World → Ctx → ℕ → Step
welcome w x features = record {
  world = record w {
    conn = record c { features = features; phase = active; client_id = w.ncid };
    ncid = w.ncid + 1;
  };
  events = (0, Event.welcome x.serial w.ncid features formats) ∷ [];
  close = false;
}
  where
    c : Connection
    c = w.conn

    formats : ℕ
    formats =
        formats_xrgb8888 + (if bit_and features feature_argb8888 != 0 then formats_argb8888 else 0)

unfoldable pub hello : World → Ctx → (min_minor max_minor offered required : ℕ) → Step
unfolding welcome
hello w x min_minor max_minor offered required =
    if ltb max_minor min_minor || ltb version_minor min_minor
    then error w x ErrorCode.version_mismatch true
    else if bit_and required (complement64 offered) != 0
    then error w x ErrorCode.malformed true
    else if bit_and required (complement64 feature_argb8888) != 0
    then error w x ErrorCode.unsupported true
    else welcome w x (bit_and offered feature_argb8888)

unfoldable pub disconnect : World → Ctx → Step
disconnect w x = record { world = w; events = (0, Event.result x.serial) ∷ []; close = true }

unfoldable pub set_title : World → Ctx → List ℕ → Step
set_title w x s = settle w x do
  require w.conn x.object ObjKind.surface
  reject (ltb max_title_bytes (length s)) ErrorCode.bad_value
  ok (done w x w.conn)

unfoldable pub set_app_id : World → Ctx → List ℕ → Step
set_app_id w x s = settle w x do
  require w.conn x.object ObjKind.surface
  reject (not (app_id_ok s)) ErrorCode.bad_value
  ok (done w x w.conn)
