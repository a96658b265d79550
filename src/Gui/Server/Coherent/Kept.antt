-- ===== src/Gui/Server/Coherent/Kept.antt =====
-- server.rs: the seat's own bookkeeping through each call.
use dunit_os.Prelude.{
  ℕ, ◌≡◌, ◌⊎◌, refl, sym, subst, max, Bool, ◌||◌, List, [], ◌∷◌, length, is_empty, ltb, leb, Option,
  none, some, if-cases, if◌then◌else◌, arith,
}
use dunit_os.Prelude.Int.{ℤ}
use dunit_os.Prelude.Table.{lookup, size}
use dunit_os.Gui.Wire.Codes.{ErrorCode, code}
use dunit_os.Gui.Wire.Event.{Event}
use dunit_os.Gui.Server.State.{Connection, Target, is_closed_phase, max_connections, max_text_bytes}
use dunit_os.Gui.Server.Seat.{Seat}
use dunit_os.Gui.Server.Step.{Step}
use dunit_os.Gui.Server.Pipeline
use dunit_os.Gui.Server.Pipeline.{
  Server, drop_all, seat_after, world_of, deliver_to, pipeline, expired,
}
use dunit_os.Gui.Server.Inject
use dunit_os.Gui.Server.Inject.{is_mapped, set_seat, Outbox, KeyAction, key_action}
use dunit_os.Gui.Server.Seated.{Seats, pipeline-Seats}
use dunit_os.Gui.Server.Sound.Quiet.{
  Quiet, emit_to-Quiet, emit_opt-Quiet, composite-Quiet, reconfigure-Quiet,
}
use dunit_os.Gui.Server.Coherent.{
  IsCoherent, drop_conn-IsCoherent, drop_surface-IsCoherent, point_at-IsCoherent,
  type_into-IsCoherent, button-IsCoherent, key_action-held_max, keep_keys-IsCoherent,
}

Quiet-IsCoherent : {srv srv' : Server} → Quiet srv srv' → IsCoherent srv.seat → IsCoherent srv'.seat
Quiet-IsCoherent q v = subst IsCoherent (sym q.seat) v

pub connect-IsCoherent :
    (srv : Server) → IsCoherent srv.seat → IsCoherent (Pipeline.connect srv).0.seat
unfolding Pipeline.connect
connect-IsCoherent srv v =
    if-cases (λ (r : Server × Option ℕ). IsCoherent r.0.seat) (leb max_connections (size srv.conns))
      (λ _. v) (λ _. v)

drop_all-IsCoherent :
    (ids : List ℕ) (srv : Server) → IsCoherent srv.seat → IsCoherent (drop_all ids srv).seat
unfolding drop_all Pipeline.disconnect_peer
drop_all-IsCoherent [] srv v = v
drop_all-IsCoherent (id ∷ ids) srv v =
    drop_all-IsCoherent ids (Pipeline.disconnect_peer id srv) (drop_conn-IsCoherent id srv.seat v)

pub disconnect_peer-IsCoherent :
    (conn : ℕ) (srv : Server)
    → IsCoherent srv.seat
    → IsCoherent (Pipeline.disconnect_peer conn srv).seat
unfolding Pipeline.disconnect_peer
disconnect_peer-IsCoherent conn srv v = drop_conn-IsCoherent conn srv.seat v

pub tick-IsCoherent :
    (now_ns : ℕ) (srv : Server) → IsCoherent srv.seat → IsCoherent (Pipeline.tick now_ns srv).0.seat
unfolding Pipeline.tick
tick-IsCoherent now_ns srv v =
    drop_all-IsCoherent (expired (max now_ns srv.now_ns) srv.conns)
      (record srv { now_ns = max now_ns srv.now_ns }) v

Seats-IsCoherent :
    (srv : Server) (c : Connection) (conn : ℕ) (s : Step)
    → IsCoherent srv.seat
    → Seats (world_of srv c) conn s
    → IsCoherent (seat_after s.close conn s.world.seat)
Seats-IsCoherent srv c conn s v p =
    if-cases IsCoherent s.close (λ _. drop_conn-IsCoherent conn s.world.seat kept) (λ _. kept)
  where
    kept : IsCoherent s.world.seat
    kept = subst IsCoherent (sym p.seat) (
        if-cases IsCoherent p.gone (λ _. drop_surface-IsCoherent (conn, p.object) srv.seat v)
          (λ _. v))

pub deliver-IsCoherent :
    (conn : ℕ) (packet : List ℕ) (attached : Option ℕ) (srv : Server)
    → IsCoherent srv.seat
    → IsCoherent (Pipeline.deliver conn packet attached srv).0.seat
unfolding Pipeline.deliver Pipeline.finish_step
deliver-IsCoherent conn packet attached srv v = go (lookup conn srv.conns) refl
  where
    go :
        (o : Option Connection)
        → lookup conn srv.conns ≡ o
        → IsCoherent (deliver_to conn packet attached srv o).0.seat
    go none e = v
    go (some c) e =
        if-cases (λ (r : Server × List (List ℕ)). IsCoherent r.0.seat) (is_closed_phase c.phase)
          (λ _. v)
          (λ _.
            Seats-IsCoherent srv c conn _ v
              (pipeline-Seats (world_of srv c) conn srv.now_ns packet attached))

close_conn-seat : (conn : ℕ) (srv : Server) → (Inject.close_conn conn srv).seat ≡ srv.seat
unfolding Inject.close_conn
close_conn-seat conn srv = go (lookup conn srv.conns)
  where
    go : (o : Option Connection) → (Inject.close_with conn srv o).seat ≡ srv.seat
    go none = refl
    go (some c) = refl

pub input_overflow-IsCoherent :
    (conn : ℕ) (srv : Server)
    → IsCoherent srv.seat
    → IsCoherent (Inject.input_overflow conn srv).0.seat
unfolding Inject.input_overflow
input_overflow-IsCoherent conn srv v =
    let sent : Server =
      (Inject.emit_to conn 0 (Event.error 0 (code ErrorCode.limit_exceeded) 1) srv).0 in
    drop_conn-IsCoherent conn _ (
      subst IsCoherent (sym (close_conn-seat conn sent))
        (Quiet-IsCoherent (emit_to-Quiet conn 0 _ srv) v))

pub composite-IsCoherent :
    (srv : Server) → IsCoherent srv.seat → IsCoherent (Inject.composite srv).0.seat
composite-IsCoherent srv v = Quiet-IsCoherent (composite-Quiet srv) v

pub reconfigure-IsCoherent :
    (conn id width height scale state : ℕ) (srv : Server)
    → IsCoherent srv.seat
    → IsCoherent (Inject.reconfigure conn id width height scale state srv).0.seat
reconfigure-IsCoherent conn id width height scale state srv v =
    Quiet-IsCoherent (reconfigure-Quiet conn id width height scale state srv) v

refocus-IsCoherent :
    (old new : Option Target) (leave enter : Event) (bind : Seat → Seat) (srv : Server)
    → IsCoherent (bind srv.seat)
    → IsCoherent (Inject.refocus old new leave enter bind srv).0.seat
refocus-IsCoherent old new leave enter bind srv v =
    let q = emit_opt-Quiet old leave srv in
    let srv1 : Server = (Inject.emit_opt old leave srv).0 in
    Quiet-IsCoherent (emit_opt-Quiet new enter (set_seat (bind srv1.seat) srv1))
      (subst (λ u. IsCoherent (bind u)) (sym q.seat) v)

pub set_pointer_focus-IsCoherent :
    (target : Option Target) (x y : ℤ) (srv : Server)
    → IsCoherent srv.seat
    → IsCoherent (Inject.set_pointer_focus target x y srv).0.seat
unfolding Inject.set_pointer_focus
set_pointer_focus-IsCoherent target x y srv v = go srv.seat.grab refl
  where
    new : Option Target
    new = Inject.filter_target (is_mapped srv) target

    go : (o : Option Target) → srv.seat.grab ≡ o → IsCoherent (Inject.cross o new x y srv).0.seat
    go (some g) e = v
    go none e =
        if-cases (λ (r : Server × Outbox). IsCoherent r.0.seat)
          (Inject.same_focus srv.seat.pointer_focus new) (λ _. v)
          (λ _.
            refocus-IsCoherent srv.seat.pointer_focus new _ _ (Inject.point_at new) srv
              (point_at-IsCoherent new srv.seat e v))

pub set_keyboard_focus-IsCoherent :
    (target : Option Target) (modifiers : ℕ) (srv : Server)
    → IsCoherent srv.seat
    → IsCoherent (Inject.set_keyboard_focus target modifiers srv).0.seat
unfolding Inject.set_keyboard_focus
set_keyboard_focus-IsCoherent target modifiers srv v =
    if-cases (λ (r : Server × Outbox). IsCoherent r.0.seat)
      (Inject.same_focus srv.seat.keyboard_focus new) (λ _. v)
      (λ _.
        refocus-IsCoherent srv.seat.keyboard_focus new _ _ (Inject.type_into new modifiers) srv
          (type_into-IsCoherent new modifiers srv.seat v))
  where
    new : Option Target
    new = Inject.filter_target (is_mapped srv) target

emit_opt-IsCoherent :
    (t : Option Target) (ev : Event) (srv : Server)
    → IsCoherent srv.seat
    → IsCoherent (Inject.emit_opt t ev srv).0.seat
emit_opt-IsCoherent t ev srv v = Quiet-IsCoherent (emit_opt-Quiet t ev srv) v

pub pointer_motion-IsCoherent :
    (x y : ℤ) (srv : Server)
    → IsCoherent srv.seat
    → IsCoherent (Inject.pointer_motion x y srv).0.seat
unfolding Inject.pointer_motion
pointer_motion-IsCoherent x y srv v = emit_opt-IsCoherent (Inject.pointer_target srv) _ srv v

pub pointer_axis-IsCoherent :
    (dx dy : ℤ) (srv : Server)
    → IsCoherent srv.seat
    → IsCoherent (Inject.pointer_axis dx dy srv).0.seat
unfolding Inject.pointer_axis
pointer_axis-IsCoherent dx dy srv v = emit_opt-IsCoherent (Inject.pointer_target srv) _ srv v

pub text_input-IsCoherent :
    (text : List ℕ) (srv : Server)
    → IsCoherent srv.seat
    → IsCoherent (Inject.text_input text srv).0.seat
unfolding Inject.text_input
text_input-IsCoherent text srv v =
    if-cases (λ (r : Server × Outbox). IsCoherent r.0.seat)
      (is_empty text || ltb max_text_bytes (length text)) (λ _. v)
      (λ _. emit_opt-IsCoherent srv.seat.keyboard_focus (Event.text_input srv.now_ns text) srv v)

pub pointer_button-IsCoherent :
    (button : ℕ) (pressed : Bool) (srv : Server)
    → IsCoherent srv.seat
    → IsCoherent (Inject.pointer_button button pressed srv).0.seat
unfolding Inject.pointer_button
pointer_button-IsCoherent button pressed srv v = go (Inject.pointer_target srv) refl
  where
    target :
        (t : Target)
        → Inject.pointer_target srv ≡ some t
        → (srv.seat.grab ≡ some t) ⊎ ((srv.seat.grab ≡ none) × (srv.seat.pointer_focus ≡ some t))
    target t e = ground arith

    go :
        (o : Option Target)
        → Inject.pointer_target srv ≡ o
        → IsCoherent (Inject.button_to o button pressed srv).0.seat
    go none e = v
    go (some t) e =
        let pushed : Server = set_seat (Inject.pushed pressed t button srv.seat) srv in
        subst (λ u. IsCoherent (Inject.end_grab pressed u))
          (sym
            (emit_to-Quiet t.0 t.1
              (Event.pointer_button srv.now_ns button (if pressed then 1 else 0)) pushed).seat)
          (button-IsCoherent pressed t button srv.seat v (target t e))

pub key-IsCoherent :
    (usage : ℕ) (pressed : Bool) (modifiers : ℕ) (repeat : Bool) (srv : Server)
    → IsCoherent srv.seat
    → IsCoherent (Inject.key usage pressed modifiers repeat srv).0.seat
unfolding Inject.key
key-IsCoherent usage pressed modifiers repeat srv v = go srv.seat.keyboard_focus refl
  where
    noted : Server
    noted = set_seat (Inject.with_modifiers modifiers srv.seat) srv

    noted-IsCoherent : IsCoherent noted.seat
    noted-IsCoherent = record {
      pinned = v.pinned;
      pressed = v.pressed;
      held_max = v.held_max;
      unfocused = v.unfocused;
    }

    act :
        (a : KeyAction) (t : Target)
        → srv.seat.keyboard_focus ≡ some t
        → key_action usage pressed repeat srv.seat.held_keys ≡ a
        → IsCoherent (Inject.act a t usage pressed modifiers repeat noted).0.seat
    act KeyAction.suppress t e k = noted-IsCoherent
    act KeyAction.overflow t e k = input_overflow-IsCoherent t.0 noted noted-IsCoherent
    act (KeyAction.send held) t e k =
        Quiet-IsCoherent
          (emit_to-Quiet t.0 t.1 _ (set_seat (Inject.keep_keys held noted.seat) noted))
          (keep_keys-IsCoherent t held noted.seat e
            (key_action-held_max usage pressed repeat srv.seat.held_keys held v.held_max k)
            noted-IsCoherent)

    go :
        (o : Option Target)
        → srv.seat.keyboard_focus ≡ o
        → IsCoherent (Inject.key_to o usage pressed modifiers repeat noted).0.seat
    go none e = noted-IsCoherent
    go (some t) e = act (key_action usage pressed repeat srv.seat.held_keys) t e refl
