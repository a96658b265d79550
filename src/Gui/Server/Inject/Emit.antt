-- ===== src/Gui/Server/Inject/Emit.antt =====
-- server.rs: `emit_to`, the check of a target, and the overflow of the held keys.
use dunit_os.Prelude.{ℕ, ◌+◌, Bool, false, ◌&&◌, List, [], ◌∷◌, Option, none, some, if◌then◌else◌}
use dunit_os.Prelude.Table.{lookup, insert}
use dunit_os.Prelude.Results.{Result, ok, err}
use dunit_os.Gui.Wire.Codes.{ErrorCode, code}
use dunit_os.Gui.Wire.Event
use dunit_os.Gui.Wire.Event.{Event}
use dunit_os.Gui.Server.State.{
  Connection, Surface, Target, closed, is_closed_phase, is_active_phase, surface_of,
}
use dunit_os.Gui.Server.Seat.{Seat, drop_conn}
use dunit_os.Gui.Server.Pipeline.{Server}

-- Packets to deliver, each with its connection.
abbrev pub Outbox : Type 0
Outbox = List (ℕ × List ℕ)

abbrev pub set_conn : ℕ → Connection → Server → Server
set_conn conn c srv = record srv { conns = insert conn c srv.conns }

abbrev pub set_seat : Seat → Server → Server
set_seat seat srv = record srv { seat = seat }

-- `emit_to`: unknown and closed connections are skipped.
abbrev pub numbered : Connection → Connection
numbered c = record c { next_server_serial = c.next_server_serial + 1 }

abbrev pub emit_with : ℕ → ℕ → Event → Server → Option Connection → Server × Outbox
emit_with conn obj ev srv none = (srv, [])
emit_with conn obj ev srv (some c) =
    if is_closed_phase c.phase
    then (srv, [])
    else (set_conn conn (numbered c) srv, (conn, Event.encode ev obj c.next_server_serial) ∷ [])

unfoldable pub emit_to : ℕ → ℕ → Event → Server → Server × Outbox
emit_to conn obj ev srv = emit_with conn obj ev srv (lookup conn srv.conns)

abbrev pub is_mapped_surface : Result ErrorCode Surface → Bool
is_mapped_surface (ok s) = s.mapped
is_mapped_surface (err e) = false

abbrev pub shows : Option Connection → ℕ → Bool
shows none id = false
shows (some c) id = is_active_phase c.phase && is_mapped_surface (surface_of c id)

-- `is_mapped`: a live mapped surface of an active connection.
unfoldable pub is_mapped : Server → Target → Bool
is_mapped srv (conn, id) = shows (lookup conn srv.conns) id

abbrev pub close_with : ℕ → Server → Option Connection → Server
close_with conn srv none = srv
close_with conn srv (some c) = set_conn conn (record c { phase = closed }) srv

unfoldable pub close_conn : ℕ → Server → Server
close_conn conn srv = close_with conn srv (lookup conn srv.conns)

unfoldable pub input_overflow : ℕ → Server → Server × Outbox
unfolding emit_to close_conn
input_overflow conn srv =
    let (srv1, out) = emit_to conn 0 (Event.error 0 (code ErrorCode.limit_exceeded) 1) srv in
    let srv2 = close_conn conn srv1 in (set_seat (drop_conn conn srv2.seat) srv2, out)
