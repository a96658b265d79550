-- ===== src/Gui/Server/Seat.antt =====
-- server.rs: the single input seat, and what it forgets when a connection or a surface goes.
use dunit_os.Prelude.{
  ℕ, Bool, false, ◌&&◌, List, [], ◌∷◌, ◌++◌, Option, none, some, ◌==◌, if◌then◌else◌,
}
use dunit_os.Gui.Wire.Event.{Event, pointer_leave, key_leave}
use dunit_os.Gui.Server.State.{Target}

pub record Seat : Type 0 where
  pub pointer_focus : Option Target
  pub keyboard_focus : Option Target
  pub grab : Option Target
  pub buttons : List ℕ
  pub held_keys : List ℕ
  pub modifiers : ℕ

-- `Seat::default`.
abbrev pub idle_seat : Seat
idle_seat = record {
  pointer_focus = none;
  keyboard_focus = none;
  grab = none;
  buttons = [];
  held_keys = [];
  modifiers = 0;
}

abbrev pub on_conn : Option Target → ℕ → Bool
on_conn none conn = false
on_conn (some (c, id)) conn = c == conn

abbrev pub is_target : Option Target → Target → Bool
is_target none t = false
is_target (some (c, id)) t = c == t.0 && id == t.1

-- The three bindings, each with the bookkeeping that goes with it.
abbrev pub clear_pointer : Seat → Seat
clear_pointer s = record s { pointer_focus = none; buttons = [] }

abbrev pub clear_grab : Seat → Seat
clear_grab s = record s { grab = none; buttons = [] }

abbrev pub clear_keyboard : Seat → Seat
clear_keyboard s = record s { keyboard_focus = none; held_keys = []; modifiers = 0 }

-- `Seat::drop_conn`: no LEAVE is sent, since the peer is gone.
unfoldable pub drop_conn : ℕ → Seat → Seat
drop_conn conn s =
    let s1 = if on_conn s.pointer_focus conn then clear_pointer s else s in
    let s2 = if on_conn s1.grab conn then clear_grab s1 else s1 in
    if on_conn s2.keyboard_focus conn then clear_keyboard s2 else s2

-- `Seat::drop_surface`: the seat, and the LEAVE events that precede the removal.
unfoldable pub drop_surface : Target → Seat → Seat
drop_surface t s =
    let s1 = if is_target s.pointer_focus t then clear_pointer s else s in
    let s2 = if is_target s1.grab t then clear_grab s1 else s1 in
    if is_target s2.keyboard_focus t then clear_keyboard s2 else s2

unfoldable pub leave_events : Target → Seat → List (ℕ × Event)
leave_events t s =
    (if is_target s.pointer_focus t then (t.1, pointer_leave) ∷ [] else [])
    ++ (if is_target s.keyboard_focus t then (t.1, key_leave) ∷ [] else [])
