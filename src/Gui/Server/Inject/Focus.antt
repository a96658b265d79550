-- ===== src/Gui/Server/Inject/Focus.antt =====
-- server.rs: how a focus moves from one surface to another.
use dunit_os.Prelude.{Bool, true, false, [], ◌++◌, Option, none, some, if◌then◌else◌}
use dunit_os.Gui.Wire.Event.{Event}
use dunit_os.Gui.Server.State.{Target}
use dunit_os.Gui.Server.Seat.{Seat, is_target}
use dunit_os.Gui.Server.Pipeline.{Server}
use dunit_os.Gui.Server.Inject.Emit.{Outbox, set_seat, emit_to}

-- `Option::or` and `Option::filter`.
abbrev pub or_else : Option Target → Option Target → Option Target
or_else none b = b
or_else (some a) b = some a

abbrev pub filter_target : (Target → Bool) → Option Target → Option Target
filter_target p none = none
filter_target p (some t) = if p t then some t else none

abbrev pub same_focus : Option Target → Option Target → Bool
same_focus none none = true
same_focus none (some t) = false
same_focus (some t) none = false
same_focus (some t) (some u) = is_target (some t) u

abbrev pub emit_opt : Option Target → Event → Server → Server × Outbox
emit_opt none ev srv = (srv, [])
emit_opt (some (conn, id)) ev srv = emit_to conn id ev srv

-- LEAVE to the old focus, then the new binding, then ENTER to the new focus.
abbrev pub refocus :
    Option Target → Option Target → Event → Event → (Seat → Seat) → Server → Server × Outbox
refocus old new leave enter bind srv =
    let (srv1, out1) = emit_opt old leave srv in
    let (srv2, out2) = emit_opt new enter (set_seat (bind srv1.seat) srv1) in (srv2, out1 ++ out2)
