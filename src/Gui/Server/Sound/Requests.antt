-- ===== src/Gui/Server/Sound/Requests.antt =====
-- server.rs: soundness through `connect`, `disconnect_peer`, `tick` and `deliver`.
use dunit_os.Prelude.{
  ℕ, ◌+◌, ◌^◌, ◌<◌, ◌≡◌, refl, subst, Bool, true, false, ◌&&◌, List, [], ◌∷◌, length, Option, none,
  some, arith, leb, max, if-cases, ◌==◌, if◌then◌else◌,
}
use dunit_os.Prelude.Table.{lookup, insert, size}
use dunit_os.Gui.Server.State.{
  Connection, Target, is_closed_phase, max_connections, new_connection, surface_of,
}
use dunit_os.Gui.Server.Seat.{drop_surface}
use dunit_os.Gui.Server.Step.{World, Step}
use dunit_os.Gui.Server.Pipeline.{
  Server, connect, disconnect_peer, drop_all, expired, tick, deliver, finish_step, finished,
  seat_after, world_of, deliver_to,
}
use dunit_os.Gui.Server.Inject.{shows}
use dunit_os.Gui.Server.Consistent.{IsConsistent}
use dunit_os.Gui.Server.Served.{Served, pipeline-Served}
use dunit_os.Gui.Server.Sound.{
  Sound, IsSound, Bound, Bound-drop_conn, Bound-drop_surface, write-IsSound, remove-IsSound,
  connect-IsSound,
}

pub connect-Sound : (srv : Server) → srv.next_conn + 1 < 2 ^ 32 → Sound srv → Sound (connect srv).0
unfolding connect
connect-Sound srv room v =
    if-cases (λ (r : Server × Option ℕ). Sound r.0) (leb max_connections (size srv.conns)) (λ _. v)
      (λ e.
        subst (λ n. IsSound n (insert srv.next_conn (new_connection srv.now_ns) srv.conns) srv.seat)
          (omega (arith, room)) (connect-IsSound srv.now_ns v (ground arith)))

pub disconnect_peer-Sound : (conn : ℕ) (srv : Server) → Sound srv → Sound (disconnect_peer conn srv)
unfolding disconnect_peer
disconnect_peer-Sound conn srv v = remove-IsSound conn v

drop_all-Sound : (ids : List ℕ) (srv : Server) → Sound srv → Sound (drop_all ids srv)
unfolding drop_all
drop_all-Sound [] srv v = v
drop_all-Sound (id ∷ ids) srv v =
    drop_all-Sound ids (disconnect_peer id srv) (disconnect_peer-Sound id srv v)

pub tick-Sound : (now_ns : ℕ) (srv : Server) → Sound srv → Sound (tick now_ns srv).0
unfolding tick
tick-Sound now_ns srv v =
    drop_all-Sound (expired (max now_ns srv.now_ns) srv.conns)
      (record srv { now_ns = max now_ns srv.now_ns }) v

pub finished-IsConsistent :
    (close : Bool) (n : ℕ) (c : Connection) → IsConsistent c → IsConsistent (finished close n c)
finished-IsConsistent close n c v = record {
  sorted = v.sorted;
  surface_count = v.surface_count;
  buffer_count = v.buffer_count;
  backing_count = v.backing_count;
  surfaces_max = v.surfaces_max;
  buffers_max = v.buffers_max;
  backing_max = v.backing_max;
  unused = v.unused;
}

-- What the seat names after a step, it named before; not the surface that the step took down.
Served-Bound :
    {w : World} {conn : ℕ} {packet : List ℕ} {s : Step} (p : Served w conn packet s) (t : Target)
    → Bound t s.world.seat
    → Bound t w.seat × ((t.0 == conn) ≡ true → (p.gone && p.object == t.1) ≡ false)
Served-Bound {w} {conn} {s = s} p t b = go p.gone (subst (Bound t) p.seat b)
  where
    go :
        (g : Bool)
        → Bound t (if g then drop_surface (conn, p.object) w.seat else w.seat)
        → Bound t w.seat × ((t.0 == conn) ≡ true → (g && p.object == t.1) ≡ false)
    go false b = (b, λ h. refl)
    go true b =
        let (b', ne) = Bound-drop_surface t (conn, p.object) w.seat b in (b', λ h. ground arith)

finish_step-Sound :
    (conn : ℕ) (packet : List ℕ) (s : Step) (srv : Server) (c : Connection)
    → Sound srv
    → lookup conn srv.conns ≡ some c
    → Served (world_of srv c) conn packet s
    → Sound (finish_step conn s srv).0
unfolding finish_step surface_of
finish_step-Sound conn packet s srv c v e p =
    write-IsSound conn c _ v e
      (finished-IsConsistent s.close (length s.events) s.world.conn p.consistent)
      (λ t b. go s.close t b)
  where
    go :
        (close : Bool) (t : Target)
        → Bound t (seat_after close conn s.world.seat)
        → Bound t srv.seat
          × ((t.0 == conn) ≡ true
              → shows (some (finished close (length s.events) s.world.conn)) t.1 ≡ true)
    go true t b =
        let (b1, ne) = Bound-drop_conn t conn s.world.seat b in
        let (b2, h) = Served-Bound p t b1 in (b2, λ k. absurd (cc))
    go false t b =
        let (b2, h) = Served-Bound p t b in
        let old = v.focus t b2 in (b2, λ k. ground (arith, p.mapped t.1 (h k)))

pub deliver-Sound :
    (conn : ℕ) (packet : List ℕ) (attached : Option ℕ) (srv : Server)
    → Sound srv
    → Sound (deliver conn packet attached srv).0
unfolding deliver
deliver-Sound conn packet attached srv v = go (lookup conn srv.conns) refl
  where
    go :
        (o : Option Connection)
        → lookup conn srv.conns ≡ o
        → Sound (deliver_to conn packet attached srv o).0
    go none e = v
    go (some c) e =
        if-cases (λ (r : Server × List (List ℕ)). Sound r.0) (is_closed_phase c.phase) (λ _. v)
          (λ _. finish_step-Sound conn packet _ srv c v e (
            pipeline-Served (world_of srv c) conn srv.now_ns packet attached
              (v.consistent conn c e)))
