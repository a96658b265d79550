-- ===== src/Gui/Server/Stale.antt =====
-- server.rs: a packet that is refused by its serial, or because its connection is closed.
use dunit_os.Prelude.{
  ℕ, ◌≡◌, ◌≤◌, ◌⊎◌, inl, inr, refl, ap, ◌∙◌, true, false, ◌||◌, List, [], ◌∷◌, Option, none, some,
  is_some, if-cases, arith, leb, ◌==◌, ◌!=◌,
}
use dunit_os.Prelude.Table.{lookup, insert, lookup-insert}
use dunit_os.Prelude.Results.{ok}
use dunit_os.Gui.Wire.Codes.{ErrorCode, Opcode, code, raw, version_major}
use dunit_os.Gui.Wire.Event
use dunit_os.Gui.Wire.Header
use dunit_os.Gui.Wire.Header.{Header}
use dunit_os.Gui.Server.State.{Connection, Phase, closed, is_closed_phase}
use dunit_os.Gui.Server.Seat.{drop_conn}
use dunit_os.Gui.Server.Step.{World, Step, error_events}
use dunit_os.Gui.Server.Pipeline.{
  Server, deliver, deliver_to, finish_step, finished, world_of, pipeline, after_header, is_xor,
}

-- No request is run: a closed connection is silent, and an open one is closed and leaves the seat, with one ERROR, and
-- nothing else of the server changes.
abbrev pub IsRefused : ℕ → Connection → Server → Server × List (List ℕ) → Type 0
IsRefused conn c srv r =
    ((c.phase ≡ closed) × (r ≡ (srv, [])))
    ⊎ ((object : ℕ) × (request : ℕ) × (e : ErrorCode) × (r ≡ (
      record srv {
        conns = insert conn (finished true 1 c) srv.conns;
        seat = drop_conn conn srv.seat;
      },
      Event.encode (Event.error request (code e) 1) object c.next_server_serial ∷ [],
    )))

-- The connection takes this packet no more: it is closed, or past the packet's serial.
abbrev pub IsStale : List ℕ → Connection → Type 0
IsStale packet c =
    (c.phase ≡ closed)
    ⊎ ((h : Header) × (Header.decode packet ≡ ok h) × (h.serial ≤ c.last_client_serial))

pub closed_phase : (c : Connection) → is_closed_phase c.phase ≡ true → c.phase ≡ closed
closed_phase c h = go c.phase h
  where
    go : (p : Phase) → is_closed_phase p ≡ true → p ≡ closed
    go Phase.fresh k = absurd (cc)
    go Phase.active k = absurd (cc)
    go Phase.closed k = refl

-- A fatal error that leaves the world as it was.
abbrev IsFatal : World → Step → Type 0
IsFatal w s =
    (object : ℕ) × (request : ℕ) × (e : ErrorCode) × (s
      ≡ record { world = w; events = error_events object request e true; close = true })

header_stale :
    (w : World) (conn_id now_ns : ℕ) (packet : List ℕ) (attached : Option ℕ) (h : Header)
    → h.serial ≤ w.conn.last_client_serial
    → IsFatal w (after_header w conn_id now_ns packet attached h)
unfolding after_header
header_stale w conn_id now_ns packet attached h le =
    if-cases (IsFatal w) (is_xor (h.opcode_raw == raw Opcode.import_buffer) (is_some attached))
      (λ _. (h.object, h.serial, ErrorCode.malformed, refl))
      (λ _.
        if-cases (IsFatal w) (h.major != version_major)
          (λ _. (h.object, h.serial, ErrorCode.version_mismatch, refl))
          (λ _.
            if-cases (IsFatal w) (h.serial == 0 || leb h.serial w.conn.last_client_serial)
              (λ _. (h.object, h.serial, ErrorCode.bad_serial, refl))
              (λ above. absurd (ground arith))))

pipeline_stale :
    (w : World) (conn_id now_ns : ℕ) (packet : List ℕ) (attached : Option ℕ) (h : Header)
    → Header.decode packet ≡ ok h
    → h.serial ≤ w.conn.last_client_serial
    → IsFatal w (pipeline w conn_id now_ns packet attached)
unfolding pipeline
pipeline_stale w conn_id now_ns packet attached h e le =
    rw e (header_stale w conn_id now_ns packet attached h le)

finish_fatal :
    (conn : ℕ) (s : Step) (srv : Server) (c : Connection)
    → IsFatal (world_of srv c) s
    → IsRefused conn c srv (finish_step conn s srv)
unfolding finish_step
finish_fatal conn s srv c (object, request, e, is) =
    inr (object, request, e, ap (λ t. finish_step conn t srv) is)

-- A packet that its connection takes no more is refused.
pub deliver_stale :
    (conn : ℕ) (packet : List ℕ) (attached : Option ℕ) (srv : Server) (c : Connection)
    → lookup conn srv.conns ≡ some c
    → IsStale packet c
    → IsRefused conn c srv (deliver conn packet attached srv)
unfolding deliver
deliver_stale conn packet attached srv c e (inl over) = inl (over, rw (e, over) refl)
deliver_stale conn packet attached srv c e (inr (h, d, le)) = rw e (
    if-cases (IsRefused conn c srv) (is_closed_phase c.phase)
      (λ over. inl (closed_phase c over, refl))
      (λ _.
        finish_fatal conn _ srv c
          (pipeline_stale (world_of srv c) conn srv.now_ns packet attached h d le)))

-- A delivery changes no other connection.
pub deliver-others :
    (conn other : ℕ) (packet : List ℕ) (attached : Option ℕ) (srv : Server)
    → (conn == other) ≡ false
    → lookup other (deliver conn packet attached srv).0.conns ≡ lookup other srv.conns
unfolding deliver finish_step
deliver-others conn other packet attached srv ne = go (lookup conn srv.conns)
  where
    go :
        (o : Option Connection)
        → lookup other (deliver_to conn packet attached srv o).0.conns ≡ lookup other srv.conns
    go none = refl
    go (some c) =
        if-cases (λ (r : Server × List (List ℕ)). lookup other r.0.conns ≡ lookup other srv.conns)
          (is_closed_phase c.phase) (λ _. refl)
          (λ _. lookup-insert conn other _ srv.conns ∙ rw ne refl)
