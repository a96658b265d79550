-- ===== src/Gui/Server/Pipeline.antt =====
-- server.rs: `Server`, its connections, the validation pipeline and `deliver`.
use dunit_os.Prelude.{
  ℕ, ◌+◌, ◌-◌, ◌%◌, ◌^◌, Bool, true, false, not, ◌&&◌, ◌||◌, List, [], ◌∷◌, length, drop, Option,
  none, some, is_some, max, leb, ◌!=◌, ◌==◌, if◌then◌else◌,
}
use dunit_os.Prelude.Table.{Table, lookup, insert, remove, size}
use dunit_os.Prelude.Results.{Result, ok, err}
use dunit_os.Gui.Wire.Codes.{
  ErrorCode, Opcode, raw, from_u16, is_request, header_len, version_major, policy_opcode_lo,
  policy_opcode_hi,
}
use dunit_os.Gui.Wire.Header
use dunit_os.Gui.Wire.Header.{Header, WireError}
use dunit_os.Gui.Wire.Request
use dunit_os.Gui.Wire.Request.{Request}
use dunit_os.Gui.Wire.Event
use dunit_os.Gui.Wire.Event.{Event}
use dunit_os.Gui.Server.State.{
  Connection, Phase, fresh, active, closed, new_connection, is_closed_phase, is_fresh_phase,
  max_connections, hello_timeout_ns,
}
use dunit_os.Gui.Server.Seat.{Seat, idle_seat, drop_conn}
use dunit_os.Gui.Server.Step.{World, Ctx, Step, error, error_events}
use dunit_os.Gui.Server.Dispatch.{dispatch}

pub record Server : Type 0 where
  pub now_ns : ℕ
  pub next_conn : ℕ
  pub next_client_id : ℕ
  pub conns : Table Connection
  pub seat : Seat

-- `Server::new`.
abbrev pub new_server : Server
new_server = record { now_ns = 0; next_conn = 1; next_client_id = 1; conns = []; seat = idle_seat }

unfoldable pub connect : Server → Server × Option ℕ
connect srv = if leb max_connections (size srv.conns) then (srv, none) else (
  record srv {
    next_conn = (srv.next_conn + 1) % 2 ^ 32;
    conns = insert srv.next_conn (new_connection srv.now_ns) srv.conns;
  },
  some srv.next_conn,
)

unfoldable pub disconnect_peer : ℕ → Server → Server
disconnect_peer conn srv = record srv {
  conns = remove conn srv.conns;
  seat = drop_conn conn srv.seat;
}

-- `tick`: the connections that have not said HELLO in time.
abbrev pub is_expired : ℕ → Connection → Bool
is_expired now c = is_fresh_phase c.phase && leb hello_timeout_ns (now - c.created_ns)

unfoldable pub expired : ℕ → Table Connection → List ℕ
expired now [] = []
expired now ((id, c) ∷ m) = if is_expired now c then id ∷ expired now m else expired now m

unfoldable pub drop_all : List ℕ → Server → Server
unfolding disconnect_peer
drop_all [] srv = srv
drop_all (id ∷ ids) srv = drop_all ids (disconnect_peer id srv)

unfoldable pub tick : ℕ → Server → Server × List ℕ
unfolding expired drop_all
tick now_ns srv =
    let srv' = record srv { now_ns = max now_ns srv.now_ns } in
    let closed_ids = expired srv'.now_ns srv.conns in (drop_all closed_ids srv', closed_ids)

abbrev is_hello : Opcode → Bool
is_hello Opcode.hello = true
is_hello _ = false

-- Stage 5: the error that the connection's phase makes of an opcode, and whether it is fatal.
abbrev pub phase_error : Phase → Opcode → Option Bool
phase_error fresh op = if is_hello op then none else some true
phase_error active op = if is_hello op then some false else none
phase_error closed op = none

abbrev pub is_malformed : ErrorCode → Bool
is_malformed ErrorCode.malformed = true
is_malformed _ = false

-- The structural decode, then `dispatch`.
abbrev pub after_decode : World → Ctx → Option ℕ → Result WireError Request → Step
after_decode w x attached (ok req) = dispatch w x req attached
after_decode w x attached (err e) = error w x e.code (is_malformed e.code)

abbrev pub after_phase : World → Ctx → List ℕ → Option ℕ → Opcode → Option Bool → Step
after_phase w x packet attached op (some fatal) = error w x ErrorCode.bad_state fatal
after_phase w x packet attached op none =
    after_decode w x attached (Request.decode op (drop header_len packet))

-- Stage 4: opcode direction and the reserved policy range.
abbrev pub after_opcode : World → Ctx → List ℕ → Option ℕ → ℕ → Option Opcode → Step
after_opcode w x packet attached opcode_raw (some op) =
    if is_request op
    then after_phase w x packet attached op (phase_error w.conn.phase op)
    else error w x ErrorCode.bad_opcode true
after_opcode w x packet attached opcode_raw none =
    if leb policy_opcode_lo opcode_raw && leb opcode_raw policy_opcode_hi
    then error w x ErrorCode.access_denied false
    else error w x ErrorCode.bad_opcode true

abbrev pub consume_serial : World → ℕ → World
consume_serial w serial = record w { conn = record c { last_client_serial = serial } }
  where
    c : Connection
    c = w.conn

abbrev pub is_xor : Bool → Bool → Bool
is_xor true b = not b
is_xor false b = b

abbrev pub ctx_of : (conn_id now_ns : ℕ) → Header → Ctx
ctx_of conn_id now_ns header = record {
  conn_id = conn_id;
  now_ns = now_ns;
  object = header.object;
  serial = header.serial;
}

-- Stages 1b to 3: attachments, version and header serial.
unfoldable pub after_header : World → (conn_id now_ns : ℕ) → List ℕ → Option ℕ → Header → Step
after_header w conn_id now_ns packet attached header =
    let x = ctx_of conn_id now_ns header in
    if is_xor (header.opcode_raw == raw Opcode.import_buffer) (is_some attached)
    then error w x ErrorCode.malformed true
    else if header.major != version_major
    then error w x ErrorCode.version_mismatch true
    else if header.serial == 0 || leb header.serial w.conn.last_client_serial
    then error w x ErrorCode.bad_serial true
    else after_opcode (consume_serial w header.serial) x packet attached header.opcode_raw
        (from_u16 header.opcode_raw)

abbrev pub after_framing :
    World → (conn_id now_ns : ℕ) → List ℕ → Option ℕ → Result WireError Header → Step
after_framing w conn_id now_ns packet attached (ok header) =
    after_header w conn_id now_ns packet attached header
after_framing w conn_id now_ns packet attached (err e) = record {
  world = w;
  events = error_events 0 0 e.code true;
  close = true;
}

-- `Server::pipeline`, from stage 1a, framing.
unfoldable pub pipeline : World → (conn_id now_ns : ℕ) → List ℕ → Option ℕ → Step
unfolding after_header
pipeline w conn_id now_ns packet attached =
    after_framing w conn_id now_ns packet attached (Header.decode packet)

-- Each event takes the next serial of the connection.
unfoldable pub encode_all : ℕ → List (ℕ × Event) → List (List ℕ)
encode_all serial [] = []
encode_all serial ((object, ev) ∷ evs) = Event.encode ev object serial ∷ encode_all (serial + 1) evs

-- What `deliver` makes of the pipeline's result: of the connection, of the seat, and of the server.
abbrev pub finished : Bool → ℕ → Connection → Connection
finished close n c = record c {
  next_server_serial = c.next_server_serial + n;
  phase = if close then closed else c.phase;
}

abbrev pub seat_after : Bool → ℕ → Seat → Seat
seat_after close conn seat = if close then drop_conn conn seat else seat

unfoldable pub finish_step : ℕ → Step → Server → Server × List (List ℕ)
unfolding encode_all
finish_step conn s srv = (
  record srv {
    next_client_id = s.world.ncid;
    conns = insert conn (finished s.close (length s.events) s.world.conn) srv.conns;
    seat = seat_after s.close conn s.world.seat;
  },
  encode_all s.world.conn.next_server_serial s.events,
)

abbrev pub world_of : Server → Connection → World
world_of srv c = record { conn = c; ncid = srv.next_client_id; seat = srv.seat }

abbrev pub deliver_to : ℕ → List ℕ → Option ℕ → Server → Option Connection → Server × List (List ℕ)
deliver_to conn packet attached srv none = (srv, [])
deliver_to conn packet attached srv (some c) =
    if is_closed_phase c.phase
    then (srv, [])
    else finish_step conn (pipeline (world_of srv c) conn srv.now_ns packet attached) srv

unfoldable pub deliver : ℕ → List ℕ → Option ℕ → Server → Server × List (List ℕ)
unfolding finish_step
deliver conn packet attached srv = deliver_to conn packet attached srv (lookup conn srv.conns)
