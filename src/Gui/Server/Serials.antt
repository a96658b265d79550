-- ===== src/Gui/Server/Serials.antt =====
-- server.rs: the serials of the client, and those of the packets that the server sends.
use dunit_os.Prelude.{
  ℕ, zero, suc, ◌+◌, ◌≡◌, ◌<◌, ◌⊎◌, inl, inr, refl, sym, subst, ◌∙◌, ◌==◌, ==→≡, if-cases, Bool,
  Bool-cases, true, false, List, [], ◌∷◌, length, get_elem?, Option, some, arith,
}
use dunit_os.Prelude.Table.{lookup, insert, lookup-insert}
use dunit_os.Prelude.Results.{ok}
use dunit_os.Gui.Wire.Header
use dunit_os.Gui.Wire.Header.{Header}
use dunit_os.Gui.Wire.Event
use dunit_os.Gui.Wire.Event.{Event}
use dunit_os.Gui.Server.State.{Connection, closed, is_closed_phase}
use dunit_os.Gui.Server.Step.{Step}
use dunit_os.Gui.Server.Pipeline.{
  Server, deliver, deliver_to, finish_step, finished, world_of, encode_all,
}
use dunit_os.Gui.Server.Served.{Served, pipeline-Served}
use dunit_os.Gui.Server.Stale.{IsRefused, IsStale, closed_phase, deliver_stale, deliver-others}
use dunit_os.Gui.Server.Sound.{Sound}
use dunit_os.Gui.Server.Sound.Requests.{deliver-Sound}

-- The packet's header is well formed, and its serial, above the last one, is now the last.
abbrev pub Accepts : List ℕ → Connection → Connection → Type 0
Accepts packet c c' =
    (h : Header) × (Header.decode packet ≡ ok h)
    × (c.last_client_serial < h.serial)
    × (c'.last_client_serial ≡ h.serial)

lookup_self :
    (conn : ℕ) (c : Connection) (srv : Server) → lookup conn (insert conn c srv.conns) ≡ some c
lookup_self conn c srv = ground (arith, lookup-insert conn conn c srv.conns)

-- What becomes of the connection `c` that a packet is delivered to.
abbrev pub Outcome : ℕ → List ℕ → Connection → Server → Type 0
Outcome conn packet c srv =
    (c' : Connection) × (lookup conn srv.conns ≡ some c')
    × ((c'.phase ≡ closed) ⊎ Accepts packet c c')

step-Outcome :
    (conn : ℕ) (packet : List ℕ) (s : Step) (srv : Server) (c : Connection)
    → Served (world_of srv c) conn packet s
    → Outcome conn packet c (finish_step conn s srv).0
unfolding finish_step
step-Outcome conn packet s srv c p =
    (finished s.close (length s.events) s.world.conn, lookup_self conn _ srv, go s.close refl)
  where
    go :
        (b : Bool)
        → s.close ≡ b
        → ((finished b (length s.events) s.world.conn).phase ≡ closed)
          ⊎ Accepts packet c (finished b (length s.events) s.world.conn)
    go true e = inl refl
    go false e = inr (p.accepted e)

-- Every packet to a connection of a sound server either leaves the connection closed, or has a
-- well-formed header whose serial is above the last one and becomes the last one.
pub deliver-Outcome :
    (conn : ℕ) (packet : List ℕ) (attached : Option ℕ) (srv : Server) (c : Connection)
    → Sound srv
    → lookup conn srv.conns ≡ some c
    → Outcome conn packet c (deliver conn packet attached srv).0
unfolding deliver
deliver-Outcome conn packet attached srv c v e =
    subst (λ o. Outcome conn packet c (deliver_to conn packet attached srv o).0) (sym e)
      (if-cases (λ (r : Server × List (List ℕ)). Outcome conn packet c r.0)
        (is_closed_phase c.phase) (λ h. (c, e, inl (closed_phase c h)))
        (λ _. step-Outcome conn packet _ srv c (
          pipeline-Served (world_of srv c) conn srv.now_ns packet attached
            (v.consistent conn c e))))

-- A closed connection takes no packet and sends none.
pub deliver_closed :
    (conn : ℕ) (packet : List ℕ) (attached : Option ℕ) (srv : Server) (c : Connection)
    → lookup conn srv.conns ≡ some c
    → c.phase ≡ closed
    → deliver conn packet attached srv ≡ (srv, [])
unfolding deliver
deliver_closed conn packet attached srv c e h = rw (e, h) refl

-- Packets that arrive one after the other: each with its connection and what is attached to it.
abbrev pub deliveries : List (ℕ × List ℕ × Option ℕ) → Server → Server
deliveries [] srv = srv
deliveries ((conn, packet, attached) ∷ rest) srv =
    deliveries rest (deliver conn packet attached srv).0

-- The connection is there, and takes this packet no more.
abbrev IsBarred : ℕ → List ℕ → Server → Type 0
IsBarred conn packet srv = (c : Connection) × (lookup conn srv.conns ≡ some c) × IsStale packet c

deliver_bars :
    (conn : ℕ) (packet : List ℕ) (attached : Option ℕ) (srv : Server) (c : Connection)
    → Sound srv
    → lookup conn srv.conns ≡ some c
    → IsBarred conn packet (deliver conn packet attached srv).0
deliver_bars conn packet attached srv c v e =
    let (c', e', h) = deliver-Outcome conn packet attached srv c v e in
    elim h [
      | inl over ↦ (c', e', inl over)
      | inr (h, d, above, last) ↦ (c', e', inr (h, d, omega (arith, last)))
    ]

-- A connection stays past a serial, and a closed one stays closed, through any delivery.
deliver-IsBarred :
    (conn : ℕ) (packet : List ℕ) (other : ℕ) (packet' : List ℕ) (attached : Option ℕ) (srv : Server)
    → Sound srv
    → IsBarred conn packet srv
    → IsBarred conn packet (deliver other packet' attached srv).0
deliver-IsBarred conn packet other packet' attached srv v (c, e, stale) =
    elim (Bool-cases (other == conn)) [
      | inl same ↦
          subst (λ k. IsBarred conn packet (deliver k packet' attached srv).0)
            (sym (==→≡ other conn same)) here
      | inr different ↦ (c, deliver-others other conn packet' attached srv different ∙ e, stale)
    ]
  where
    here : IsBarred conn packet (deliver conn packet' attached srv).0
    here = elim stale [
      | inl over ↦ (c, cc (deliver_closed conn packet' attached srv c e over, e), inl over)
      | inr (h, d, le) ↦
          let (c', e', r) = deliver-Outcome conn packet' attached srv c v e in
          elim r [
            | inl over ↦ (c', e', inl over)
            | inr (h', d', above, last) ↦ (c', e', inr (h, d, omega (arith, le, above, last)))
          ]
    ]

deliveries-IsBarred :
    (conn : ℕ) (packet : List ℕ) (later : List (ℕ × List ℕ × Option ℕ)) (srv : Server)
    → Sound srv
    → IsBarred conn packet srv
    → IsBarred conn packet (deliveries later srv)
deliveries-IsBarred conn packet [] srv v b = b
deliveries-IsBarred conn packet ((other, packet', attached) ∷ later) srv v b =
    deliveries-IsBarred conn packet later (deliver other packet' attached srv).0
      (deliver-Sound other packet' attached srv v)
      (deliver-IsBarred conn packet other packet' attached srv v b)

-- The packet comes to a connection that is still there, and is refused.
abbrev pub Rejects : ℕ → List ℕ → Option ℕ → Server → Type 0
Rejects conn packet again srv =
    (c : Connection) × (lookup conn srv.conns ≡ some c)
    × IsRefused conn c srv (deliver conn packet again srv)

-- No packet is taken twice: after it was delivered to a connection of a sound server, and after any further packets on
-- any connections, delivering it again, whatever is attached, runs no request. Either the connection is closed, and
-- nothing changes; or one ERROR is sent, the connection is closed and the seat forgets it, and nothing else of the
-- server changes.
pub deliver_replay :
    (conn : ℕ) (packet : List ℕ) (attached again : Option ℕ) (later : List (ℕ × List ℕ × Option ℕ))
    (srv : Server) (c : Connection)
    → Sound srv
    → lookup conn srv.conns ≡ some c
    → Rejects conn packet again (deliveries later (deliver conn packet attached srv).0)
deliver_replay conn packet attached again later srv c v e =
    let srv1 : Server = (deliver conn packet attached srv).0 in
    let (c1, e1, stale) =
      deliveries-IsBarred conn packet later srv1 (deliver-Sound conn packet attached srv v)
        (deliver_bars conn packet attached srv c v e) in
    (c1, e1, deliver_stale conn packet again (deliveries later srv1) c1 e1 stale)

-- The packets that one call sends on a connection carry consecutive serials from `first` on.
abbrev pub AreNumbered : ℕ → List (List ℕ) → Type 0
AreNumbered first packets =
    (i : ℕ) (packet : List ℕ)
    → get_elem? packets i ≡ some packet
    → (object : ℕ) × (ev : Event) × (packet ≡ Event.encode ev object (first + i))

encode_all-AreNumbered :
    (first : ℕ) (evs : List (ℕ × Event)) → AreNumbered first (encode_all first evs)
unfolding encode_all
encode_all-AreNumbered first [] i packet h = absurd (cc)
encode_all-AreNumbered first ((object, ev) ∷ evs) zero packet h =
    let k : first ≡ first + 0 = omega arith in (object, ev, cc)
encode_all-AreNumbered first ((object, ev) ∷ evs) (suc i) packet h =
    let (obj, e, p) = encode_all-AreNumbered (first + 1) evs i packet h in
    let k : first + 1 + i ≡ first + suc i = omega arith in (obj, e, cc)

length-encode_all :
    (first : ℕ) (evs : List (ℕ × Event)) → length (encode_all first evs) ≡ length evs
unfolding encode_all
length-encode_all first [] = refl
length-encode_all first (e ∷ evs) = omega (arith, length-encode_all (first + 1) evs)

-- What a call to `deliver` sends on the connection `c`, and the serial that it leaves for the next packet.
abbrev pub Sends : ℕ → Connection → Server × List (List ℕ) → Type 0
Sends conn c (srv, packets) =
    (c' : Connection) × (lookup conn srv.conns ≡ some c')
    × (c'.next_server_serial ≡ c.next_server_serial + length packets)
    × AreNumbered c.next_server_serial packets

step-Sends :
    (conn : ℕ) (packet : List ℕ) (s : Step) (srv : Server) (c : Connection)
    → Served (world_of srv c) conn packet s
    → Sends conn c (finish_step conn s srv)
unfolding finish_step
step-Sends conn packet s srv c p = (
  finished s.close (length s.events) s.world.conn,
  lookup_self conn _ srv,
  omega (arith, p.next, length-encode_all s.world.conn.next_server_serial s.events),
  subst (λ n. AreNumbered n (encode_all s.world.conn.next_server_serial s.events)) p.next
      (encode_all-AreNumbered s.world.conn.next_server_serial s.events),
)

-- The packets that a sound server answers with on a connection are encodings of events whose serials
-- follow each other from the connection's next server serial, which moves on by their number.
pub deliver_numbering :
    (conn : ℕ) (packet : List ℕ) (attached : Option ℕ) (srv : Server) (c : Connection)
    → Sound srv
    → lookup conn srv.conns ≡ some c
    → Sends conn c (deliver conn packet attached srv)
unfolding deliver
deliver_numbering conn packet attached srv c v e =
    subst (λ o. Sends conn c (deliver_to conn packet attached srv o)) (sym e)
      (if-cases (Sends conn c) (is_closed_phase c.phase)
        (λ h. (c, e, omega arith, λ i p k. absurd (cc)))
        (λ _. step-Sends conn packet _ srv c (
          pipeline-Served (world_of srv c) conn srv.now_ns packet attached
            (v.consistent conn c e))))
