-- ===== src/Gui/Server/Calls.antt =====
-- server.rs: the public operations of `Server`, as calls that run one after the other.
use dunit_os.Prelude.{ℕ, ◌+◌, ◌^◌, ◌<◌, Bool, List, [], ◌∷◌, Option}
use dunit_os.Prelude.Int.{ℤ}
use dunit_os.Gui.Server.State.{Target}
use dunit_os.Gui.Server.Pipeline
use dunit_os.Gui.Server.Pipeline.{Server}
use dunit_os.Gui.Server.Inject

pub data Call : Type 0 where
  connect : Call
  disconnect_peer : (conn : ℕ) → Call
  tick : (now_ns : ℕ) → Call
  deliver : (conn : ℕ) → List ℕ → Option ℕ → Call
  input_overflow : (conn : ℕ) → Call
  composite : Call
  reconfigure : (conn id width height scale state : ℕ) → Call
  set_pointer_focus : Option Target → (x y : ℤ) → Call
  pointer_motion : (x y : ℤ) → Call
  pointer_button : (button : ℕ) → Bool → Call
  pointer_axis : (dx dy : ℤ) → Call
  set_keyboard_focus : Option Target → (modifiers : ℕ) → Call
  key : (usage : ℕ) → Bool → (modifiers : ℕ) → Bool → Call
  text_input : List ℕ → Call

-- The server after a call.
unfoldable pub after : Call → Server → Server
after Call.connect srv = (Pipeline.connect srv).0
after (Call.disconnect_peer conn) srv = Pipeline.disconnect_peer conn srv
after (Call.tick now_ns) srv = (Pipeline.tick now_ns srv).0
after (Call.deliver conn packet attached) srv = (Pipeline.deliver conn packet attached srv).0
after (Call.input_overflow conn) srv = (Inject.input_overflow conn srv).0
after Call.composite srv = (Inject.composite srv).0
after (Call.reconfigure conn id width height scale state) srv =
    (Inject.reconfigure conn id width height scale state srv).0
after (Call.set_pointer_focus target x y) srv = (Inject.set_pointer_focus target x y srv).0
after (Call.pointer_motion x y) srv = (Inject.pointer_motion x y srv).0
after (Call.pointer_button button pressed) srv = (Inject.pointer_button button pressed srv).0
after (Call.pointer_axis dx dy) srv = (Inject.pointer_axis dx dy srv).0
after (Call.set_keyboard_focus target modifiers) srv =
    (Inject.set_keyboard_focus target modifiers srv).0
after (Call.key usage pressed modifiers repeat) srv =
    (Inject.key usage pressed modifiers repeat srv).0
after (Call.text_input text) srv = (Inject.text_input text srv).0

-- The next connection id, where the call may take it, is not the last of 32 bits; through calls one after the other.
abbrev pub NoWrap : Call → Server → Type 0
NoWrap Call.connect srv = srv.next_conn + 1 < 2 ^ 32
NoWrap _ srv = Unit

abbrev pub HasRoom : List Call → Server → Type 0
HasRoom [] srv = Unit
HasRoom (call ∷ calls) srv = NoWrap call srv × HasRoom calls (after call srv)

unfoldable pub run : List Call → Server → Server
unfolding after
run [] srv = srv
run (call ∷ calls) srv = run calls (after call srv)
