-- ===== src/Gui/Server/Inject/Keyboard.antt =====
-- server.rs: the keyboard focus, keys and text.
use dunit_os.Prelude.{
  ℕ, Bool, ◌&&◌, ◌||◌, List, [], ◌∷◌, ◌++◌, length, is_empty, retain, contains, Option, none, some,
  ltb, leb, ◌!=◌, if◌then◌else◌,
}
use dunit_os.Gui.Wire.Event.{Event}
use dunit_os.Gui.Server.State.{Target, max_held_keys, max_text_bytes}
use dunit_os.Gui.Server.Seat.{Seat}
use dunit_os.Gui.Server.Pipeline.{Server}
use dunit_os.Gui.Server.Inject.Emit.{Outbox, set_seat, emit_to, is_mapped, input_overflow}
use dunit_os.Gui.Server.Inject.Focus.{filter_target, same_focus, emit_opt, refocus}

abbrev pub type_into : Option Target → ℕ → Seat → Seat
type_into target modifiers seat = record seat {
  keyboard_focus = target;
  held_keys = [];
  modifiers = modifiers;
}

unfoldable pub set_keyboard_focus : Option Target → (modifiers : ℕ) → Server → Server × Outbox
unfolding emit_to is_mapped
set_keyboard_focus target modifiers srv =
    let target' = filter_target (is_mapped srv) target in
    if same_focus srv.seat.keyboard_focus target'
    then (srv, [])
    else refocus srv.seat.keyboard_focus target' Event.key_leave (Event.key_enter modifiers)
        (type_into target' modifiers) srv

-- What a key event does, given whether the key is held: nothing, a change of the held keys, overflow.
pub data KeyAction : Type 0 where
  suppress : KeyAction
  send : List ℕ → KeyAction
  overflow : KeyAction

unfoldable pub key_action : ℕ → Bool → Bool → List ℕ → KeyAction
key_action usage pressed repeat held_keys =
    let held = contains held_keys usage in
    if pressed
    then (if repeat
        then (if held then send held_keys else suppress)
        else if held
        then send held_keys
        else if leb max_held_keys (length held_keys)
        then overflow
        else send (held_keys ++ (usage ∷ [])))
    else if held
    then send (retain (λ k. k != usage) held_keys)
    else suppress

abbrev pub keep_keys : List ℕ → Seat → Seat
keep_keys held seat = record seat { held_keys = held }

abbrev pub act :
    KeyAction → Target → (usage : ℕ) → Bool → (modifiers : ℕ) → Bool → Server → Server × Outbox
act KeyAction.suppress t usage pressed modifiers repeat srv = (srv, [])
act KeyAction.overflow t usage pressed modifiers repeat srv = input_overflow t.0 srv
act (KeyAction.send held) t usage pressed modifiers repeat srv =
    emit_to t.0 t.1
      (Event.key srv.now_ns usage (if pressed then 1 else 0) modifiers
        (if pressed && repeat then 1 else 0))
      (set_seat (keep_keys held srv.seat) srv)

abbrev pub key_to :
    Option Target → (usage : ℕ) → Bool → (modifiers : ℕ) → Bool → Server → Server × Outbox
key_to none usage pressed modifiers repeat srv = (srv, [])
key_to (some t) usage pressed modifiers repeat srv =
    act (key_action usage pressed repeat srv.seat.held_keys) t usage pressed modifiers repeat srv

abbrev pub with_modifiers : ℕ → Seat → Seat
with_modifiers modifiers seat = record seat { modifiers = modifiers }

unfoldable pub key : (usage : ℕ) → Bool → (modifiers : ℕ) → Bool → Server → Server × Outbox
unfolding emit_to input_overflow key_action
key usage pressed modifiers repeat srv =
    key_to srv.seat.keyboard_focus usage pressed modifiers repeat
      (set_seat (with_modifiers modifiers srv.seat) srv)

unfoldable pub text_input : List ℕ → Server → Server × Outbox
unfolding emit_to
text_input text srv =
    if is_empty text || ltb max_text_bytes (length text)
    then (srv, [])
    else emit_opt srv.seat.keyboard_focus (Event.text_input srv.now_ns text) srv
