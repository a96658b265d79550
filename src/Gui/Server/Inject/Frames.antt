-- ===== src/Gui/Server/Inject/Frames.antt =====
-- server.rs: `composite` with the frame callbacks, and `reconfigure`.
use dunit_os.Prelude.{
  ℕ, false, not, ◌&&◌, ◌||◌, List, [], ◌∷◌, ◌++◌, Option, none, some, ◌==◌, if◌then◌else◌,
}
use dunit_os.Prelude.Table.{Table, lookup}
use dunit_os.Prelude.Results.{Result, ok, err}
use dunit_os.Gui.Wire.Codes.{ErrorCode}
use dunit_os.Gui.Wire.Event.{Event}
use dunit_os.Gui.Server.State.{
  Connection, Surface, Object, is_active_phase, surface_of, put_surface, dim_ok, frame_presented,
  frame_discarded,
}
use dunit_os.Gui.Server.Pipeline.{Server}
use dunit_os.Gui.Server.Inject.Emit.{Outbox, set_conn, emit_to}

-- A pending frame callback: connection, surface, token and status.
pub record Callback : Type 0 where
  pub conn : ℕ
  pub id : ℕ
  pub token : ℕ
  pub status : ℕ

abbrev callback_of : ℕ → ℕ → Object → List Callback
callback_of conn id (Object.buffer b) = []
callback_of conn id (Object.surface s) =
    if s.frame_pending
    then record {
      conn = conn;
      id = id;
      token = s.frame_token;
      status = if s.mapped then frame_presented else frame_discarded;
    }
      ∷ []
    else []

unfoldable pub object_callbacks : ℕ → Table Object → List Callback
object_callbacks conn [] = []
object_callbacks conn ((id, o) ∷ m) = callback_of conn id o ++ object_callbacks conn m

unfoldable pub callbacks : Table Connection → List Callback
unfolding object_callbacks
callbacks [] = []
callbacks ((conn, c) ∷ m) =
    (if is_active_phase c.phase then object_callbacks conn c.objects else []) ++ callbacks m

abbrev pub clear_callback : ℕ → Connection → Result ErrorCode Surface → Connection
clear_callback id c (ok s) = put_surface id (record s { frame_pending = false }) c
clear_callback id c (err e) = c

abbrev pub clear_with : ℕ → ℕ → Server → Option Connection → Server
clear_with conn id srv none = srv
clear_with conn id srv (some c) = set_conn conn (clear_callback id c (surface_of c id)) srv

unfoldable pub clear_pending : ℕ → ℕ → Server → Server
clear_pending conn id srv = clear_with conn id srv (lookup conn srv.conns)

unfoldable pub complete : List Callback → Server → Server × Outbox
unfolding emit_to clear_pending
complete [] srv = (srv, [])
complete (d ∷ ds) srv =
    let (srv1, out1) =
      emit_to d.conn d.id (Event.frame_done d.token srv.now_ns d.status)
        (clear_pending d.conn d.id srv) in
    let (srv2, out2) = complete ds srv1 in (srv2, out1 ++ out2)

unfoldable pub composite : Server → Server × Outbox
unfolding complete callbacks
composite srv = complete (callbacks srv.conns) srv

abbrev pub configured : Surface → (width height scale state token : ℕ) → Surface
configured s width height scale state token = record s {
  width = width;
  height = height;
  scale = scale;
  state = state;
  latest_token = token;
}

-- `reconfigure`: the CONFIGURE's header serial becomes the surface's latest token.
abbrev pub reconfigure_surface :
    ℕ
    → ℕ
    → (width height scale state : ℕ) → Connection
    → Result ErrorCode Surface
    → Server
    → Server × Outbox
reconfigure_surface conn id width height scale state c (err e) srv = (srv, [])
reconfigure_surface conn id width height scale state c (ok s) srv =
    emit_to conn id (Event.configure width height scale state) (
      set_conn conn (put_surface id (configured s width height scale state c.next_server_serial) c)
        srv)

abbrev pub reconfigure_with :
    ℕ → ℕ → (width height scale state : ℕ) → Server → Option Connection → Server × Outbox
reconfigure_with conn id width height scale state srv none = (srv, [])
reconfigure_with conn id width height scale state srv (some c) =
    if is_active_phase c.phase
    then reconfigure_surface conn id width height scale state c (surface_of c id) srv
    else (srv, [])

unfoldable pub reconfigure : ℕ → ℕ → (width height scale state : ℕ) → Server → Server × Outbox
unfolding emit_to
reconfigure conn id width height scale state srv =
    if not (dim_ok width && dim_ok height) || scale == 0
    then (srv, [])
    else reconfigure_with conn id width height scale state srv (lookup conn srv.conns)
