-- ===== src/Gui/Server/Sound/Events.antt =====
-- server.rs: soundness through the events that move the seat's bindings.
use dunit_os.Prelude.{
  ℕ, ◌≡◌, refl, sym, subst, Bool, true, ◌||◌, List, Option, none, some, arith, ◌⊎◌, inl, inr,
  if◌then◌else◌, if-cases, is_empty, ltb, length,
}
use dunit_os.Prelude.Int.{ℤ}
use dunit_os.Gui.Wire.Event.{Event}
use dunit_os.Gui.Server.State.{Target, max_text_bytes}
use dunit_os.Gui.Server.Seat.{Seat}
use dunit_os.Gui.Server.Pipeline.{Server}
use dunit_os.Gui.Server.Inject
use dunit_os.Gui.Server.Inject.{shows, is_mapped, set_seat, set_conn, Outbox, numbered}
use dunit_os.Gui.Server.Sound.{Sound, Bound}
use dunit_os.Gui.Server.Sound.Quiet.{
  emit_to-Quiet, emit_opt-Quiet, set_seat-Sound, input_overflow-Sound,
}

-- LEAVE, the new binding to a mapped surface or to none, ENTER.
refocus-Sound :
    (old new : Option Target) (leave enter : Event) (bind : Seat → Seat) (srv : Server)
    → Sound srv
    → ((t : Target) → Bound t (bind srv.seat) → Bound t srv.seat ⊎ (is_mapped srv t ≡ true))
    → Sound (Inject.refocus old new leave enter bind srv).0
refocus-Sound old new leave enter bind srv v h =
    let q = emit_opt-Quiet old leave srv in
    let srv1 : Server = (Inject.emit_opt old leave srv).0 in
    (emit_opt-Quiet new enter (set_seat (bind srv1.seat) srv1)).sound (
      set_seat-Sound (bind srv1.seat) srv1 (q.sound v) (λ t b.
        elim (h t (subst (λ u. Bound t (bind u)) q.seat b)) [
          | inl b' ↦ inl (subst (Bound t) (sym q.seat) b')
          | inr m ↦ inr (q.shown t m)
        ]))

filtered_mapped :
    (target : Option Target) (srv : Server) (t : Target)
    → Inject.filter_target (is_mapped srv) target ≡ some t
    → is_mapped srv t ≡ true
filtered_mapped none srv t h = absurd (cc)
filtered_mapped (some u) srv t h = ground arith

pub set_pointer_focus-Sound :
    (target : Option Target) (x y : ℤ) (srv : Server)
    → Sound srv
    → Sound (Inject.set_pointer_focus target x y srv).0
unfolding Inject.set_pointer_focus
set_pointer_focus-Sound target x y srv v = go srv.seat.grab
  where
    new : Option Target
    new = Inject.filter_target (is_mapped srv) target

    bound :
        (t : Target)
        → Bound t (Inject.point_at new srv.seat)
        → Bound t srv.seat ⊎ (is_mapped srv t ≡ true)
    bound t (inl h) = inr (filtered_mapped target srv t h)
    bound t (inr (inl h)) = inl (inr (inl h))
    bound t (inr (inr h)) = inl (inr (inr h))

    go : (o : Option Target) → Sound (Inject.cross o new x y srv).0
    go (some g) = v
    go none =
        if-cases (λ (r : Server × Outbox). Sound r.0) (Inject.same_focus srv.seat.pointer_focus new)
          (λ _. v)
          (λ _. refocus-Sound srv.seat.pointer_focus new _ _ (Inject.point_at new) srv v bound)

pub set_keyboard_focus-Sound :
    (target : Option Target) (modifiers : ℕ) (srv : Server)
    → Sound srv
    → Sound (Inject.set_keyboard_focus target modifiers srv).0
unfolding Inject.set_keyboard_focus
set_keyboard_focus-Sound target modifiers srv v =
    if-cases (λ (r : Server × Outbox). Sound r.0) (Inject.same_focus srv.seat.keyboard_focus new)
      (λ _. v)
      (λ _.
        refocus-Sound srv.seat.keyboard_focus new _ _ (Inject.type_into new modifiers) srv v bound)
  where
    new : Option Target
    new = Inject.filter_target (is_mapped srv) target

    bound :
        (t : Target)
        → Bound t (Inject.type_into new modifiers srv.seat)
        → Bound t srv.seat ⊎ (is_mapped srv t ≡ true)
    bound t (inl h) = inl (inl h)
    bound t (inr (inl h)) = inr (filtered_mapped target srv t h)
    bound t (inr (inr h)) = inl (inr (inr h))

emit_opt-Sound :
    (t : Option Target) (ev : Event) (srv : Server) → Sound srv → Sound (Inject.emit_opt t ev srv).0
emit_opt-Sound t ev srv v = (emit_opt-Quiet t ev srv).sound v

pub pointer_motion-Sound :
    (x y : ℤ) (srv : Server) → Sound srv → Sound (Inject.pointer_motion x y srv).0
unfolding Inject.pointer_motion
pointer_motion-Sound x y srv v = emit_opt-Sound (Inject.pointer_target srv) _ srv v

pub pointer_axis-Sound :
    (dx dy : ℤ) (srv : Server) → Sound srv → Sound (Inject.pointer_axis dx dy srv).0
unfolding Inject.pointer_axis
pointer_axis-Sound dx dy srv v = emit_opt-Sound (Inject.pointer_target srv) _ srv v

pub text_input-Sound :
    (text : List ℕ) (srv : Server) → Sound srv → Sound (Inject.text_input text srv).0
unfolding Inject.text_input
text_input-Sound text srv v =
    if-cases (λ (r : Server × Outbox). Sound r.0)
      (is_empty text || ltb max_text_bytes (length text)) (λ _. v)
      (λ _. emit_opt-Sound srv.seat.keyboard_focus (Event.text_input srv.now_ns text) srv v)

-- A seat that names no surface anew.
narrow-Sound :
    (seat : Seat) (srv : Server)
    → Sound srv
    → ((t : Target) → Bound t seat → Bound t srv.seat)
    → Sound (set_seat seat srv)
narrow-Sound seat srv v h = set_seat-Sound seat srv v (λ t b. inl (h t b))

pointer_target-Bound :
    (srv : Server) (t : Target) → Inject.pointer_target srv ≡ some t → Bound t srv.seat
pointer_target-Bound srv t h = ground arith

pushed-Bound :
    (pressed : Bool) (t : Target) (button : ℕ) (seat : Seat) (u : Target)
    → Bound t seat
    → Bound u (Inject.pushed pressed t button seat)
    → Bound u seat
pushed-Bound pressed t button seat u b h = ground arith

end_grab-Bound :
    (pressed : Bool) (seat : Seat) (u : Target)
    → Bound u (Inject.end_grab pressed seat)
    → Bound u seat
end_grab-Bound pressed seat u h = ground arith

pub pointer_button-Sound :
    (button : ℕ) (pressed : Bool) (srv : Server)
    → Sound srv
    → Sound (Inject.pointer_button button pressed srv).0
unfolding Inject.pointer_button
pointer_button-Sound button pressed srv v = go (Inject.pointer_target srv) refl
  where
    go :
        (o : Option Target)
        → Inject.pointer_target srv ≡ o
        → Sound (Inject.button_to o button pressed srv).0
    go none e = v
    go (some t) e =
        let pushed : Server = set_seat (Inject.pushed pressed t button srv.seat) srv in
        let sent : Server =
          (Inject.emit_to t.0 t.1
            (Event.pointer_button srv.now_ns button (if pressed then 1 else 0)) pushed).0 in
        narrow-Sound (Inject.end_grab pressed sent.seat) sent
          ((emit_to-Quiet t.0 t.1 _ pushed).sound (
            narrow-Sound _ srv v
              (λ u b. pushed-Bound pressed t button srv.seat u (pointer_target-Bound srv t e) b)))
          (λ u b. end_grab-Bound pressed sent.seat u b)

pub key-Sound :
    (usage : ℕ) (pressed : Bool) (modifiers : ℕ) (repeat : Bool) (srv : Server)
    → Sound srv
    → Sound (Inject.key usage pressed modifiers repeat srv).0
unfolding Inject.key
key-Sound usage pressed modifiers repeat srv v =
    go srv.seat.keyboard_focus (set_seat (Inject.with_modifiers modifiers srv.seat) srv)
      (narrow-Sound _ srv v (λ t b. b))
  where
    act :
        (a : Inject.KeyAction) (t : Target) (srv : Server)
        → Sound srv
        → Sound (Inject.act a t usage pressed modifiers repeat srv).0
    act Inject.KeyAction.suppress t srv v = v
    act Inject.KeyAction.overflow t srv v = input_overflow-Sound t.0 srv v
    act (Inject.KeyAction.send held) t srv v =
        (emit_to-Quiet t.0 t.1 _ (set_seat (Inject.keep_keys held srv.seat) srv)).sound
          (narrow-Sound _ srv v (λ t b. b))

    go :
        (o : Option Target) (srv : Server)
        → Sound srv
        → Sound (Inject.key_to o usage pressed modifiers repeat srv).0
    go none srv v = v
    go (some t) srv v = act (Inject.key_action usage pressed repeat srv.seat.held_keys) t srv v
