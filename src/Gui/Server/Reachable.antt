-- ===== src/Gui/Server/Reachable.antt =====
-- server.rs: the invariants of every server that a sequence of calls reaches.
use dunit_os.Prelude.{refl, inl, arith, List, [], ◌∷◌}
use dunit_os.Prelude.Table.{size, lookup}
use dunit_os.Gui.Server.Pipeline.{Server, new_server}
use dunit_os.Gui.Server.Calls.{Call, after, run, NoWrap, HasRoom}
use dunit_os.Gui.Server.Sound.{Sound}
use dunit_os.Gui.Server.Coherent.{IsCoherent}
use dunit_os.Gui.Server.Coherent.Kept
use dunit_os.Gui.Server.Sound.Requests.{
  connect-Sound, disconnect_peer-Sound, tick-Sound, deliver-Sound,
}
use dunit_os.Gui.Server.Sound.Quiet.{reconfigure-Quiet, composite-Quiet, input_overflow-Sound}
use dunit_os.Gui.Server.Sound.Events.{
  set_pointer_focus-Sound, pointer_motion-Sound, pointer_button-Sound, pointer_axis-Sound,
  set_keyboard_focus-Sound, key-Sound, text_input-Sound,
}

pub after-Sound :
    (call : Call) (srv : Server) → NoWrap call srv → Sound srv → Sound (after call srv)
unfolding after
after-Sound Call.connect srv room v = connect-Sound srv room v
after-Sound (Call.disconnect_peer conn) srv room v = disconnect_peer-Sound conn srv v
after-Sound (Call.tick now_ns) srv room v = tick-Sound now_ns srv v
after-Sound (Call.deliver conn packet attached) srv room v =
    deliver-Sound conn packet attached srv v
after-Sound (Call.input_overflow conn) srv room v = input_overflow-Sound conn srv v
after-Sound Call.composite srv room v = (composite-Quiet srv).sound v
after-Sound (Call.reconfigure conn id width height scale state) srv room v =
    (reconfigure-Quiet conn id width height scale state srv).sound v
after-Sound (Call.set_pointer_focus target x y) srv room v =
    set_pointer_focus-Sound target x y srv v
after-Sound (Call.pointer_motion x y) srv room v = pointer_motion-Sound x y srv v
after-Sound (Call.pointer_button button pressed) srv room v =
    pointer_button-Sound button pressed srv v
after-Sound (Call.pointer_axis dx dy) srv room v = pointer_axis-Sound dx dy srv v
after-Sound (Call.set_keyboard_focus target modifiers) srv room v =
    set_keyboard_focus-Sound target modifiers srv v
after-Sound (Call.key usage pressed modifiers repeat) srv room v =
    key-Sound usage pressed modifiers repeat srv v
after-Sound (Call.text_input text) srv room v = text_input-Sound text srv v

-- A server that any sequence of calls reaches from a sound one, as long as connection ids do not run over 32
-- bits, is sound: at most 64 connections, each
-- with counters that agree with its objects and stay within the limits, and every surface that the
-- seat names as a focus or as the grab is a mapped surface of an active connection.
pub run-Sound :
    (calls : List Call) (srv : Server) → HasRoom calls srv → Sound srv → Sound (run calls srv)
unfolding run
run-Sound [] srv room v = v
run-Sound (call ∷ calls) srv room v =
    run-Sound calls (after call srv) room.1 (after-Sound call srv room.0 v)

pub new_server-Sound : Sound new_server
unfolding size lookup
new_server-Sound = record {
  sorted = tt;
  count = omega arith;
  unused = λ id h. refl;
  consistent = λ id c h. absurd (cc);
  focus = λ t b. ground arith;
}

after-IsCoherent :
    (call : Call) (srv : Server) → IsCoherent srv.seat → IsCoherent (after call srv).seat
unfolding after
after-IsCoherent Call.connect srv v = Kept.connect-IsCoherent srv v
after-IsCoherent (Call.disconnect_peer conn) srv v = Kept.disconnect_peer-IsCoherent conn srv v
after-IsCoherent (Call.tick now_ns) srv v = Kept.tick-IsCoherent now_ns srv v
after-IsCoherent (Call.deliver conn packet attached) srv v =
    Kept.deliver-IsCoherent conn packet attached srv v
after-IsCoherent (Call.input_overflow conn) srv v = Kept.input_overflow-IsCoherent conn srv v
after-IsCoherent Call.composite srv v = Kept.composite-IsCoherent srv v
after-IsCoherent (Call.reconfigure conn id width height scale state) srv v =
    Kept.reconfigure-IsCoherent conn id width height scale state srv v
after-IsCoherent (Call.set_pointer_focus target x y) srv v =
    Kept.set_pointer_focus-IsCoherent target x y srv v
after-IsCoherent (Call.pointer_motion x y) srv v = Kept.pointer_motion-IsCoherent x y srv v
after-IsCoherent (Call.pointer_button button pressed) srv v =
    Kept.pointer_button-IsCoherent button pressed srv v
after-IsCoherent (Call.pointer_axis dx dy) srv v = Kept.pointer_axis-IsCoherent dx dy srv v
after-IsCoherent (Call.set_keyboard_focus target modifiers) srv v =
    Kept.set_keyboard_focus-IsCoherent target modifiers srv v
after-IsCoherent (Call.key usage pressed modifiers repeat) srv v =
    Kept.key-IsCoherent usage pressed modifiers repeat srv v
after-IsCoherent (Call.text_input text) srv v = Kept.text_input-IsCoherent text srv v

-- In every server that a sequence of calls reaches from one with a coherent seat, the seat is
-- coherent: a grab is the pointer's focus, buttons are down just while there is a grab, at most 256
-- keys are held, and none while the keyboard has no focus.
pub run-IsCoherent :
    (calls : List Call) (srv : Server) → IsCoherent srv.seat → IsCoherent (run calls srv).seat
unfolding run
run-IsCoherent [] srv v = v
run-IsCoherent (call ∷ calls) srv v =
    run-IsCoherent calls (after call srv) (after-IsCoherent call srv v)

pub new_server-IsCoherent : IsCoherent new_server.seat
new_server-IsCoherent = record {
  pinned = inl refl;
  pressed = refl;
  held_max = omega arith;
  unfocused = λ h. refl;
}
