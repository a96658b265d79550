-- ===== src/Gui/Server/Step.antt =====
-- server.rs: what an arm of `dispatch` reads, changes and emits.
use dunit_os.Prelude.{ℕ, Bool, false, List, [], ◌∷◌, if◌then◌else◌}
use dunit_os.Prelude.Results.{Result, ok, err}
use dunit_os.Gui.Wire.Codes.{ErrorCode, code}
use dunit_os.Gui.Wire.Event.{Event, buffer_release}
use dunit_os.Gui.Server.State.{Connection, Buffer, available, buffer_of, put_buffer}
use dunit_os.Gui.Server.Seat.{Seat}

-- The `&mut` parameters of `dispatch`.
pub record World : Type 0 where
  pub conn : Connection
  pub ncid : ℕ
  pub seat : Seat

-- Its other parameters: the connection's id, the time, and the header's object and serial.
pub record Ctx : Type 0 where
  pub conn_id : ℕ
  pub now_ns : ℕ
  pub object : ℕ
  pub serial : ℕ

-- The changed state beside an `Emit`: events with their header objects, and whether to tear down.
pub record Step : Type 0 where
  pub world : World
  pub events : List (ℕ × Event)
  pub close : Bool

-- `error(object, request, code, fatal)`.
abbrev pub error_events : ℕ → ℕ → ErrorCode → Bool → List (ℕ × Event)
error_events object request e fatal =
    (object, Event.error request (code e) (if fatal then 1 else 0)) ∷ []

abbrev pub error : World → Ctx → ErrorCode → Bool → Step
error w x e fatal = record {
  world = w;
  events = error_events x.object x.serial e fatal;
  close = fatal;
}

-- The reply `ok`, with the connection as the arm leaves it.
abbrev pub done : World → Ctx → Connection → Step
done w x c = record {
  world = record w { conn = c };
  events = (x.object, Event.result x.serial) ∷ [];
  close = false;
}

-- An arm that fails by `return error(obj, ser, e, false)` changes nothing.
unfoldable pub settle : World → Ctx → Result ErrorCode Step → Step
settle w x (ok s) = s
settle w x (err e) = error w x e false

abbrev pub released : Buffer → Buffer
released b = record b { state = available; commit_token = 0 }

-- A buffer goes back to its client, if the id still names one: the connection and the event.
abbrev pub release_with :
    ℕ → ℕ → Connection → Result ErrorCode Buffer → Connection × List (ℕ × Event)
release_with id commit c (ok b) = (put_buffer id (released b) c, (id, buffer_release commit) ∷ [])
release_with id commit c (err e) = (c, [])

unfoldable pub release_buffer : ℕ → ℕ → Connection → Connection × List (ℕ × Event)
release_buffer id commit c = release_with id commit c (buffer_of c id)
