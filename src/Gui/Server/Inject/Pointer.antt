-- ===== src/Gui/Server/Inject/Pointer.antt =====
-- server.rs: the pointer focus, motion, buttons with the grab, and the axis.
use dunit_os.Prelude.Int.{ℤ}
use dunit_os.Prelude.{
  ℕ, Bool, not, ◌&&◌, [], ◌∷◌, ◌++◌, is_empty, retain, contains, Option, none, some, ◌!=◌,
  if◌then◌else◌,
}
use dunit_os.Gui.Wire.Event.{Event}
use dunit_os.Gui.Server.State.{Target}
use dunit_os.Gui.Server.Seat.{Seat}
use dunit_os.Gui.Server.Pipeline.{Server}
use dunit_os.Gui.Server.Inject.Emit.{Outbox, set_seat, emit_to, is_mapped}
use dunit_os.Gui.Server.Inject.Focus.{or_else, filter_target, same_focus, emit_opt, refocus}

abbrev pub point_at : Option Target → Seat → Seat
point_at target seat = record seat { pointer_focus = target; buttons = [] }

-- The crossing is not made while a grab pins the pointer.
abbrev pub cross : Option Target → Option Target → (x y : ℤ) → Server → Server × Outbox
cross (some grabbed) target x y srv = (srv, [])
cross none target x y srv =
    if same_focus srv.seat.pointer_focus target
    then (srv, [])
    else refocus srv.seat.pointer_focus target Event.pointer_leave (Event.pointer_enter x y)
        (point_at target) srv

unfoldable pub set_pointer_focus : Option Target → (x y : ℤ) → Server → Server × Outbox
unfolding emit_to is_mapped
set_pointer_focus target x y srv =
    cross srv.seat.grab (filter_target (is_mapped srv) target) x y srv

abbrev pub pointer_target : Server → Option Target
pointer_target srv = or_else srv.seat.grab srv.seat.pointer_focus

unfoldable pub pointer_motion : (x y : ℤ) → Server → Server × Outbox
unfolding emit_to
pointer_motion x y srv = emit_opt (pointer_target srv) (Event.pointer_motion srv.now_ns x y) srv

-- The seat after a press, and after a release, that goes to the target `t`.
abbrev pub press : Target → ℕ → Seat → Seat
press t button seat = record seat {
  buttons = if contains seat.buttons button then seat.buttons else seat.buttons ++ (button ∷ []);
  grab = or_else seat.grab (some t);
}

abbrev pub lift : ℕ → Seat → Seat
lift button seat = record seat { buttons = retain (λ b. b != button) seat.buttons }

abbrev pub pushed : Bool → Target → ℕ → Seat → Seat
pushed pressed t button seat = if pressed then press t button seat else lift button seat

abbrev pub end_grab : Bool → Seat → Seat
end_grab pressed seat =
    if not pressed && is_empty seat.buttons then record seat { grab = none } else seat

abbrev pub button_to : Option Target → ℕ → Bool → Server → Server × Outbox
button_to none button pressed srv = (srv, [])
button_to (some t) button pressed srv =
    let (srv1, out) =
      emit_to t.0 t.1 (Event.pointer_button srv.now_ns button (if pressed then 1 else 0))
        (set_seat (pushed pressed t button srv.seat) srv) in
    (set_seat (end_grab pressed srv1.seat) srv1, out)

unfoldable pub pointer_button : ℕ → Bool → Server → Server × Outbox
unfolding emit_to
pointer_button button pressed srv = button_to (pointer_target srv) button pressed srv

unfoldable pub pointer_axis : (dx dy : ℤ) → Server → Server × Outbox
unfolding emit_to
pointer_axis dx dy srv = emit_opt (pointer_target srv) (Event.pointer_axis srv.now_ns dx dy) srv
