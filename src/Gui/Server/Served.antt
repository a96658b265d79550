-- ===== src/Gui/Server/Served.antt =====
-- server.rs: what the validation pipeline keeps of a connection, stage by stage.
use dunit_os.Prelude.{
  ℕ, ◌≡◌, ◌≤◌, ◌<◌, refl, sym, ap, subst, Bool, true, false, ◌&&◌, ◌||◌, List, drop, Option, none,
  some, is_some, arith, leb, ◌==◌, ◌!=◌, if◌then◌else◌,
}
use dunit_os.Prelude.Results.{Result, ok, err}
use dunit_os.Gui.Wire.Codes.{
  ErrorCode, Opcode, from_u16, is_request, raw, header_len, version_major, policy_opcode_lo,
  policy_opcode_hi,
}
use dunit_os.Gui.Wire.Header
use dunit_os.Gui.Wire.Header.{Header, WireError}
use dunit_os.Gui.Wire.Request
use dunit_os.Gui.Wire.Request.{Request}
use dunit_os.Gui.Server.State.{is_active_phase, surface_of}
use dunit_os.Gui.Server.Seat.{drop_surface}
use dunit_os.Gui.Server.Step.{World, Ctx, Step, error}
use dunit_os.Gui.Server.Pipeline.{
  pipeline, after_framing, after_header, after_opcode, after_phase, after_decode, consume_serial,
  phase_error, is_xor, is_malformed, ctx_of,
}
use dunit_os.Gui.Server.Consistent.{IsConsistent}
use dunit_os.Gui.Server.Bookkeeping.{dispatch-IsConsistent}
use dunit_os.Gui.Server.Follows.{mapped, Follows-refl}
use dunit_os.Gui.Server.Progress.{Advances, keep-Advances, dispatch-Advances}

-- A stage after the serial keeps the bookkeeping, and advances.
record Passes (w : World) (x : Ctx) (s : Step) : Type 0 where
  consistent : IsConsistent s.world.conn
  advances : Advances w x s

error-Passes :
    (w : World) (x : Ctx) (e : ErrorCode) (fatal : Bool)
    → IsConsistent w.conn
    → Passes w x (error w x e fatal)
error-Passes w x e fatal v = record {
  consistent = v;
  advances = keep-Advances (Follows-refl w.conn);
}

decode-Passes :
    (w : World) (x : Ctx) (attached : Option ℕ) (r : Result WireError Request)
    → IsConsistent w.conn
    → Passes w x (after_decode w x attached r)
decode-Passes w x attached (err e) v = error-Passes w x e.code (is_malformed e.code) v
decode-Passes w x attached (ok req) v = record {
  consistent = dispatch-IsConsistent w x req attached v;
  advances = dispatch-Advances w x req attached v;
}

phase-Passes :
    (w : World) (x : Ctx) (packet : List ℕ) (attached : Option ℕ) (op : Opcode) (o : Option Bool)
    → IsConsistent w.conn
    → Passes w x (after_phase w x packet attached op o)
phase-Passes w x packet attached op (some fatal) v = error-Passes w x ErrorCode.bad_state fatal v
phase-Passes w x packet attached op none v =
    decode-Passes w x attached (Request.decode op (drop header_len packet)) v

if-Passes :
    {w : World} {x : Ctx} (b : Bool) {s t : Step}
    → Passes w x s
    → Passes w x t
    → Passes w x (if b then s else t)
if-Passes true h k = h
if-Passes false h k = k

opcode-Passes :
    (w : World) (x : Ctx) (packet : List ℕ) (attached : Option ℕ) (n : ℕ) (o : Option Opcode)
    → IsConsistent w.conn
    → Passes w x (after_opcode w x packet attached n o)
opcode-Passes w x packet attached n (some op) v =
    if-Passes (is_request op) (phase-Passes w x packet attached op (phase_error w.conn.phase op) v)
      (error-Passes w x ErrorCode.bad_opcode true v)
opcode-Passes w x packet attached n none v =
    if-Passes (leb policy_opcode_lo n && leb n policy_opcode_hi)
      (error-Passes w x ErrorCode.access_denied false v)
      (error-Passes w x ErrorCode.bad_opcode true v)

-- A step that leaves the connection open has consumed the serial of a well-formed header.
pub record Served (w : World) (conn_id : ℕ) (packet : List ℕ) (s : Step) : Type 0 where
  pub consistent : IsConsistent s.world.conn
  pub object : ℕ
  pub gone : Bool
  pub phase : is_active_phase w.conn.phase ≡ true → is_active_phase s.world.conn.phase ≡ true
  pub mapped :
      (j : ℕ)
      → (gone && object == j) ≡ false
      → mapped w.conn j ≡ true
      → mapped s.world.conn j ≡ true
  pub seat : s.world.seat ≡ (if gone then drop_surface (conn_id, object) w.seat else w.seat)
  pub next : s.world.conn.next_server_serial ≡ w.conn.next_server_serial
  pub last : w.conn.last_client_serial ≤ s.world.conn.last_client_serial
  pub accepted :
      s.close ≡ false
      → (h : Header) × (Header.decode packet ≡ ok h)
        × (w.conn.last_client_serial < h.serial)
        × (s.world.conn.last_client_serial ≡ h.serial)

fatal-Served :
    (w : World) (conn_id : ℕ) (packet : List ℕ) {s : Step}
    → IsConsistent w.conn
    → s.world ≡ w
    → s.close ≡ true
    → Served w conn_id packet s
fatal-Served w conn_id packet v e h = record {
  consistent = subst (λ (u : World). IsConsistent u.conn) (sym e) v;
  object = 0;
  gone = false;
  phase = λ k. subst (λ (u : World). is_active_phase u.conn.phase ≡ true) (sym e) k;
  mapped = λ j p k. subst (λ (u : World). mapped u.conn j ≡ true) (sym e) k;
  seat = ap (λ (u : World). u.seat) e;
  next = ap (λ (u : World). u.conn.next_server_serial) e;
  last =
      subst (λ (u : World). w.conn.last_client_serial ≤ u.conn.last_client_serial) (sym e)
        (omega arith);
  accepted = λ k. absurd (cc);
}

consume-IsConsistent :
    (w : World) (n : ℕ) → IsConsistent w.conn → IsConsistent (consume_serial w n).conn
consume-IsConsistent w n v = record {
  sorted = v.sorted;
  surface_count = v.surface_count;
  buffer_count = v.buffer_count;
  backing_count = v.backing_count;
  surfaces_max = v.surfaces_max;
  buffers_max = v.buffers_max;
  backing_max = v.backing_max;
  unused = v.unused;
}

passed-Served :
    (w : World) (x : Ctx) (packet : List ℕ) (h : Header) {s : Step}
    → Header.decode packet ≡ ok h
    → w.conn.last_client_serial < h.serial
    → Passes (consume_serial w h.serial) x s
    → Served w x.conn_id packet s
unfolding surface_of
passed-Served w x packet h e lt p = record {
  consistent = p.consistent;
  object = x.object;
  gone = p.advances.gone;
  phase = p.advances.conn.phase;
  mapped = p.advances.conn.mapped;
  seat = p.advances.seat;
  next = p.advances.conn.next;
  last = omega (arith, p.advances.conn.last);
  accepted = λ _. (h, e, lt, p.advances.conn.last);
}

if-Served :
    {w : World} {conn_id : ℕ} {packet : List ℕ} (b : Bool) {s t : Step}
    → (b ≡ true → Served w conn_id packet s)
    → (b ≡ false → Served w conn_id packet t)
    → Served w conn_id packet (if b then s else t)
if-Served true h k = h refl
if-Served false h k = k refl

header-Served :
    (w : World) (conn_id now_ns : ℕ) (packet : List ℕ) (attached : Option ℕ) (h : Header)
    → Header.decode packet ≡ ok h
    → IsConsistent w.conn
    → Served w conn_id packet (after_header w conn_id now_ns packet attached h)
unfolding after_header
header-Served w conn_id now_ns packet attached h e v =
    if-Served (is_xor (h.opcode_raw == raw Opcode.import_buffer) (is_some attached))
      (λ _. fatal-Served w conn_id packet v refl refl)
      (λ _.
        if-Served (h.major != version_major) (λ _. fatal-Served w conn_id packet v refl refl)
          (λ _.
            if-Served (h.serial == 0 || leb h.serial w.conn.last_client_serial)
              (λ _. fatal-Served w conn_id packet v refl refl)
              (λ k. passed-Served w (ctx_of conn_id now_ns h) packet h e (ground arith) (
                opcode-Passes (consume_serial w h.serial) (ctx_of conn_id now_ns h) packet attached
                  h.opcode_raw (from_u16 h.opcode_raw) (consume-IsConsistent w h.serial v)))))

-- A packet keeps the bookkeeping of its connection, and gives the seat at most one surface to forget.
pub pipeline-Served :
    (w : World) (conn_id now_ns : ℕ) (packet : List ℕ) (attached : Option ℕ)
    → IsConsistent w.conn
    → Served w conn_id packet (pipeline w conn_id now_ns packet attached)
unfolding pipeline
pipeline-Served w conn_id now_ns packet attached v = go (Header.decode packet) refl
  where
    go :
        (r : Result WireError Header)
        → Header.decode packet ≡ r
        → Served w conn_id packet (after_framing w conn_id now_ns packet attached r)
    go (ok h) e = header-Served w conn_id now_ns packet attached h e v
    go (err x) e = fatal-Served w conn_id packet v refl refl
