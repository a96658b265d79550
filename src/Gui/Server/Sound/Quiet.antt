-- ===== src/Gui/Server/Sound/Quiet.antt =====
-- server.rs: soundness through the events that leave the seat alone, and through an overflow.
use dunit_os.Prelude.{
  ℕ, ◌≡◌, refl, ◌∙◌, true, false, ◌&&◌, ◌||◌, not, List, [], ◌∷◌, Option, none, some, arith, ◌⊎◌,
  inl, inr, ◌==◌, if-cases,
}
use dunit_os.Prelude.Results.{Result, ok, err}
use dunit_os.Prelude.Table.{lookup, lookup-insert}
use dunit_os.Gui.Wire.Codes.{ErrorCode, code}
use dunit_os.Gui.Wire.Event.{Event}
use dunit_os.Gui.Server.State.{
  Connection, Surface, Target, closed, is_closed_phase, is_active_phase, surface_of, put_surface,
  dim_ok,
}
use dunit_os.Gui.Server.Seat.{Seat, drop_conn}
use dunit_os.Gui.Server.Pipeline.{Server}
use dunit_os.Gui.Server.Inject
use dunit_os.Gui.Server.Inject.{shows, is_mapped, set_seat, set_conn, Outbox, numbered}
use dunit_os.Gui.Server.Consistent.{IsConsistent, put_surface-IsConsistent}
use dunit_os.Gui.Server.Follows.{put_surface-Follows}
use dunit_os.Gui.Server.Sound.{Sound, Bound, Bound-drop_conn, write-IsSound}

-- A change that keeps soundness, the seat, and what is mapped.
pub record Quiet (srv srv' : Server) : Type 0 where
  pub sound : Sound srv → Sound srv'
  pub seat : srv'.seat ≡ srv.seat
  pub shown : (t : Target) → is_mapped srv t ≡ true → is_mapped srv' t ≡ true

pub Quiet-refl : (srv : Server) → Quiet srv srv
Quiet-refl srv = record { sound = λ v. v; seat = refl; shown = λ t h. h }

Quiet-trans : {a b c : Server} → Quiet a b → Quiet b c → Quiet a c
Quiet-trans p q = record {
  sound = λ v. q.sound (p.sound v);
  seat = q.seat ∙ p.seat;
  shown = λ t h. q.shown t (p.shown t h);
}

-- A connection that keeps its bookkeeping, its phase and what is mapped.
set_conn-Quiet :
    (conn : ℕ) (c c' : Connection) (srv : Server)
    → lookup conn srv.conns ≡ some c
    → (IsConsistent c → IsConsistent c')
    → ((id : ℕ) → shows (some c) id ≡ true → shows (some c') id ≡ true)
    → Quiet srv (set_conn conn c' srv)
unfolding is_mapped
set_conn-Quiet conn c c' srv e f g = record {
  sound = λ v.
      write-IsSound conn c c' v e (f (v.consistent conn c e))
        (λ t b. (b, λ k. let old = v.focus t b in g t.1 (ground arith)));
  seat = refl;
  shown = λ t h. ground (arith, lookup-insert conn t.0 c' srv.conns, g t.1);
}

numbered-IsConsistent : (c : Connection) → IsConsistent c → IsConsistent (numbered c)
numbered-IsConsistent c v = record {
  sorted = v.sorted;
  surface_count = v.surface_count;
  buffer_count = v.buffer_count;
  backing_count = v.backing_count;
  surfaces_max = v.surfaces_max;
  buffers_max = v.buffers_max;
  backing_max = v.backing_max;
  unused = v.unused;
}

pub emit_to-Quiet :
    (conn obj : ℕ) (ev : Event) (srv : Server) → Quiet srv (Inject.emit_to conn obj ev srv).0
unfolding Inject.emit_to surface_of
emit_to-Quiet conn obj ev srv = go (lookup conn srv.conns) refl
  where
    go :
        (o : Option Connection)
        → lookup conn srv.conns ≡ o
        → Quiet srv (Inject.emit_with conn obj ev srv o).0
    go none e = Quiet-refl srv
    go (some c) e =
        if-cases (λ (r : Server × Outbox). Quiet srv r.0) (is_closed_phase c.phase)
          (λ _. Quiet-refl srv)
          (λ _. set_conn-Quiet conn c (numbered c) srv e (numbered-IsConsistent c) (λ id h. h))

pub emit_opt-Quiet :
    (t : Option Target) (ev : Event) (srv : Server) → Quiet srv (Inject.emit_opt t ev srv).0
emit_opt-Quiet none ev srv = Quiet-refl srv
emit_opt-Quiet (some t) ev srv = emit_to-Quiet t.0 t.1 ev srv

-- A new seat that names what the old one did, or what is mapped.
pub set_seat-Sound :
    (seat : Seat) (srv : Server)
    → Sound srv
    → ((t : Target) → Bound t seat → Bound t srv.seat ⊎ (is_mapped srv t ≡ true))
    → Sound (set_seat seat srv)
unfolding is_mapped
set_seat-Sound seat srv v h = record {
  sorted = v.sorted;
  count = v.count;
  unused = v.unused;
  consistent = v.consistent;
  focus = λ t b. elim (h t b) [ inl b' ↦ v.focus t b' | inr m ↦ m ];
}

closed-IsConsistent : (c : Connection) → IsConsistent c → IsConsistent (record c { phase = closed })
closed-IsConsistent c v = record {
  sorted = v.sorted;
  surface_count = v.surface_count;
  buffer_count = v.buffer_count;
  backing_count = v.backing_count;
  surfaces_max = v.surfaces_max;
  buffers_max = v.buffers_max;
  backing_max = v.backing_max;
  unused = v.unused;
}

-- The connection closes, and the seat forgets it.
closed-Sound :
    (conn : ℕ) (srv : Server)
    → Sound srv
    → Sound
        (set_seat (drop_conn conn (Inject.close_conn conn srv).seat) (Inject.close_conn conn srv))
unfolding Inject.close_conn
closed-Sound conn srv v = go (lookup conn srv.conns) refl
  where
    go :
        (o : Option Connection)
        → lookup conn srv.conns ≡ o
        → Sound (
            set_seat
              (drop_conn conn (Inject.close_with conn srv o).seat)
              (Inject.close_with conn srv o))
    go none e = set_seat-Sound _ srv v (λ t b. inl (Bound-drop_conn t conn srv.seat b).0)
    go (some c) e =
        write-IsSound conn c _ v e (closed-IsConsistent c (v.consistent conn c e))
          (λ t b. let (b', ne) = Bound-drop_conn t conn srv.seat b in (b', λ k. absurd (cc)))

pub input_overflow-Sound :
    (conn : ℕ) (srv : Server) → Sound srv → Sound (Inject.input_overflow conn srv).0
unfolding Inject.input_overflow
input_overflow-Sound conn srv v =
    closed-Sound conn _
      ((emit_to-Quiet conn 0 (Event.error 0 (code ErrorCode.limit_exceeded) 1) srv).sound v)

-- A surface is written with its mapped flag kept.
put_surface-Quiet :
    (conn id : ℕ) (c : Connection) (s s' : Surface) (srv : Server)
    → lookup conn srv.conns ≡ some c
    → surface_of c id ≡ ok s
    → (s.mapped ≡ true → s'.mapped ≡ true)
    → Quiet srv (set_conn conn (put_surface id s' c) srv)
put_surface-Quiet conn id c s s' srv e k h =
    let f = put_surface-Follows {gone = false} {c = c} id s s' k (λ _. h) in
    set_conn-Quiet conn c (put_surface id s' c) srv e (λ v. put_surface-IsConsistent id s s' v k)
      (λ j p. ground (arith, f.phase, f.mapped j refl))

clear_pending-Quiet : (conn id : ℕ) (srv : Server) → Quiet srv (Inject.clear_pending conn id srv)
unfolding Inject.clear_pending
clear_pending-Quiet conn id srv = go (lookup conn srv.conns) refl
  where
    clear :
        (c : Connection) (r : Result ErrorCode Surface)
        → lookup conn srv.conns ≡ some c
        → surface_of c id ≡ r
        → Quiet srv (set_conn conn (Inject.clear_callback id c r) srv)
    clear c (ok s) e k = put_surface-Quiet conn id c s _ srv e k (λ h. h)
    clear c (err x) e k = set_conn-Quiet conn c c srv e (λ v. v) (λ j p. p)

    go :
        (o : Option Connection)
        → lookup conn srv.conns ≡ o
        → Quiet srv (Inject.clear_with conn id srv o)
    go none e = Quiet-refl srv
    go (some c) e = clear c (surface_of c id) e refl

complete-Quiet : (ds : List Inject.Callback) (srv : Server) → Quiet srv (Inject.complete ds srv).0
unfolding Inject.complete
complete-Quiet [] srv = Quiet-refl srv
complete-Quiet (d ∷ ds) srv = Quiet-trans (clear_pending-Quiet d.conn d.id srv) (
    Quiet-trans (emit_to-Quiet d.conn d.id _ (Inject.clear_pending d.conn d.id srv))
      (complete-Quiet ds _))

pub composite-Quiet : (srv : Server) → Quiet srv (Inject.composite srv).0
unfolding Inject.composite
composite-Quiet srv = complete-Quiet (Inject.callbacks srv.conns) srv

pub reconfigure-Quiet :
    (conn id width height scale state : ℕ) (srv : Server)
    → Quiet srv (Inject.reconfigure conn id width height scale state srv).0
unfolding Inject.reconfigure
reconfigure-Quiet conn id width height scale state srv =
    if-cases (λ (r : Server × Outbox). Quiet srv r.0)
      (not (dim_ok width && dim_ok height) || scale == 0) (λ _. Quiet-refl srv)
      (λ _. go (lookup conn srv.conns) refl)
  where
    write :
        (c : Connection) (r : Result ErrorCode Surface)
        → lookup conn srv.conns ≡ some c
        → surface_of c id ≡ r
        → Quiet srv (Inject.reconfigure_surface conn id width height scale state c r srv).0
    write c (err x) e k = Quiet-refl srv
    write c (ok s) e k =
        Quiet-trans (put_surface-Quiet conn id c s _ srv e k (λ h. h))
          (emit_to-Quiet conn id (Event.configure width height scale state) _)

    go :
        (o : Option Connection)
        → lookup conn srv.conns ≡ o
        → Quiet srv (Inject.reconfigure_with conn id width height scale state srv o).0
    go none e = Quiet-refl srv
    go (some c) e =
        if-cases (λ (r : Server × Outbox). Quiet srv r.0) (is_active_phase c.phase)
          (λ _. write c (surface_of c id) e refl) (λ _. Quiet-refl srv)
