-- ===== src/Gui/Server/Seated.antt =====
-- server.rs: what `pipeline` leaves of the seat, for a packet on any connection.
use dunit_os.Prelude.{
  ℕ, ◌≡◌, refl, Bool, true, false, List, drop, Option, none, some, is_some, if◌then◌else◌, ◌==◌,
  ◌!=◌, ltb, leb, ◌||◌, ◌&&◌, bit_and,
}
use dunit_os.Prelude.Results.{
  Result, ok, err, Ensures, Ensures-ok, Ensures->>=, Ensures->>, Ensures-if,
}
use dunit_os.Gui.Wire.Codes.{
  ErrorCode, Opcode, from_u16, is_request, raw, header_len, version_major, version_minor,
  feature_argb8888, policy_opcode_lo, policy_opcode_hi,
}
use dunit_os.Gui.Wire.Header
use dunit_os.Gui.Wire.Header.{Header, WireError}
use dunit_os.Gui.Wire.Event.{Event}
use dunit_os.Gui.Wire.Request
use dunit_os.Gui.Wire.Request.{Request}
use dunit_os.Gui.Server.State.{Connection}
use dunit_os.Gui.Server.Seat.{drop_surface}
use dunit_os.Gui.Server.Step.{World, Ctx, Step, settle}
use dunit_os.Gui.Server.Dispatch.{dispatch}
use dunit_os.Gui.Server.Dispatch.Session
use dunit_os.Gui.Server.Dispatch.Surfaces
use dunit_os.Gui.Server.Dispatch.Buffers
use dunit_os.Gui.Server.Dispatch.Commit
use dunit_os.Gui.Server.Pipeline.{
  pipeline, after_framing, after_header, after_opcode, after_phase, after_decode, consume_serial,
  phase_error, is_xor, ctx_of,
}

-- The seat is as it was, or forgets one surface of the connection.
pub record Seats (w : World) (conn_id : ℕ) (s : Step) : Type 0 where
  pub gone : Bool
  pub object : ℕ
  pub seat : s.world.seat ≡ (if gone then drop_surface (conn_id, object) w.seat else w.seat)

keep :
    {w : World} {conn_id : ℕ} {c : Connection} {n : ℕ} {evs : List (ℕ × Event)} {close : Bool}
    → Seats w conn_id (record {
      world = record { conn = c; ncid = n; seat = w.seat };
      events = evs;
      close = close;
    })
keep = record { gone = false; object = 0; seat = refl }

if-Seats :
    {w : World} {conn_id : ℕ} (b : Bool) {s t : Step}
    → Seats w conn_id s
    → Seats w conn_id t
    → Seats w conn_id (if b then s else t)
if-Seats true h k = h
if-Seats false h k = k

settle-Seats :
    (w : World) (x : Ctx) {m : Result ErrorCode Step}
    → Ensures m (Seats w x.conn_id)
    → Seats w x.conn_id (settle w x m)
unfolding settle
settle-Seats w x {m = ok s} h = h.holds s refl
settle-Seats w x {m = err e} h = keep

-- A request that changes only the connection.
kept :
    (w : World) (x : Ctx) {c : Connection} {n : ℕ} {evs : List (ℕ × Event)} {close : Bool}
    → Ensures {E = ErrorCode}
        (ok (record {
          world = record { conn = c; ncid = n; seat = w.seat };
          events = evs;
          close = close;
        }))
        (Seats w x.conn_id)
kept w x = Ensures-ok (Seats w x.conn_id) keep

dispatch-Seats :
    (w : World) (x : Ctx) (req : Request) (attached : Option ℕ)
    → Seats w x.conn_id (dispatch w x req attached)
unfolding dispatch Session.hello Session.welcome Session.disconnect Session.set_title
    Session.set_app_id Surfaces.create_surface Surfaces.created Surfaces.destroy_surface
    Surfaces.destroyed Surfaces.ack_configure Buffers.import_buffer Buffers.destroy_buffer
    Buffers.attach_buffer Commit.commit Commit.commit_unmap Commit.commit_map
dispatch-Seats w x (Request.hello a b c d) attached =
    if-Seats (ltb b a || ltb version_minor a) keep (
      if-Seats (bit_and d (Session.complement64 c) != 0) keep
        (if-Seats (bit_and d (Session.complement64 feature_argb8888) != 0) keep keep))
dispatch-Seats w x Request.disconnect attached = keep
dispatch-Seats w x (Request.set_title s) attached =
    settle-Seats w x (Ensures->> _ _ λ _. Ensures->> _ _ λ _. kept w x)
dispatch-Seats w x (Request.set_app_id s) attached =
    settle-Seats w x (Ensures->> _ _ λ _. Ensures->> _ _ λ _. kept w x)
dispatch-Seats w x (Request.create_surface a b c d) attached = settle-Seats w x (
    Ensures->> _ _
      λ _. Ensures->> _ _ λ _. Ensures->> _ _ λ _. Ensures->> _ _ λ _. Ensures->> _ _ λ _. kept w x)
dispatch-Seats w x Request.destroy_surface attached = settle-Seats w x (
    Ensures->>= _ λ s _.
      Ensures-ok (Seats w x.conn_id) (record { gone = true; object = x.object; seat = refl }))
dispatch-Seats w x (Request.ack_configure a) attached =
    settle-Seats w x (Ensures->>= _ λ _ _. Ensures->> _ _ λ _. kept w x)
dispatch-Seats w x (Request.import_buffer a b c d e) attached = settle-Seats w x (
    Ensures->> _ _ λ _. Ensures->> _ _ λ _. Ensures->> _ _ λ _.
      Ensures->> _ _ λ _.
        Ensures->> _ _ λ _. Ensures->> _ _ λ _. Ensures->> _ _ λ _. Ensures->> _ _ λ _. kept w x)
dispatch-Seats w x Request.destroy_buffer attached =
    settle-Seats w x (Ensures->>= _ λ _ _. Ensures->> _ _ λ _. kept w x)
dispatch-Seats w x (Request.attach_buffer b rs) attached = settle-Seats w x (
    Ensures->>= _ λ _ _.
      Ensures-if (b == 0) (λ _. Ensures->> _ _ λ _. Ensures->> _ _ λ _. kept w x)
        (λ _. Ensures->>= _ λ _ _.
          Ensures->> _ _ λ _. Ensures->> _ _ λ _. Ensures->> _ _ λ _. Ensures->> _ _ λ _. kept w x))
dispatch-Seats w x (Request.commit a b) attached = settle-Seats w x (
    Ensures->> _ _ λ _. Ensures->>= _ λ s _. Ensures->> _ _ λ _. Ensures->> _ _ λ _.
      Ensures->> _ _ λ _.
        Ensures-if (s.pending_buffer == 0)
          (λ _.
            Ensures-ok (Seats w x.conn_id) (record { gone = true; object = x.object; seat = refl }))
          (λ _. Ensures->>= _ λ _ _. Ensures->> _ _ λ _. kept w x))

decode-Seats :
    (w : World) (x : Ctx) (attached : Option ℕ) (r : Result WireError Request)
    → Seats w x.conn_id (after_decode w x attached r)
decode-Seats w x attached (err e) = keep
decode-Seats w x attached (ok req) = dispatch-Seats w x req attached

phase-Seats :
    (w : World) (x : Ctx) (packet : List ℕ) (attached : Option ℕ) (op : Opcode) (o : Option Bool)
    → Seats w x.conn_id (after_phase w x packet attached op o)
phase-Seats w x packet attached op (some fatal) = keep
phase-Seats w x packet attached op none =
    decode-Seats w x attached (Request.decode op (drop header_len packet))

opcode-Seats :
    (w : World) (x : Ctx) (packet : List ℕ) (attached : Option ℕ) (n : ℕ) (o : Option Opcode)
    → Seats w x.conn_id (after_opcode w x packet attached n o)
opcode-Seats w x packet attached n (some op) =
    if-Seats (is_request op) (phase-Seats w x packet attached op (phase_error w.conn.phase op)) keep
opcode-Seats w x packet attached n none =
    if-Seats (leb policy_opcode_lo n && leb n policy_opcode_hi) keep keep

header-Seats :
    (w : World) (conn_id now_ns : ℕ) (packet : List ℕ) (attached : Option ℕ) (h : Header)
    → Seats w conn_id (after_header w conn_id now_ns packet attached h)
unfolding after_header
header-Seats w conn_id now_ns packet attached h =
    if-Seats (is_xor (h.opcode_raw == raw Opcode.import_buffer) (is_some attached)) keep (
      if-Seats (h.major != version_major) keep (
        if-Seats (h.serial == 0 || leb h.serial w.conn.last_client_serial) keep (
          let s =
            opcode-Seats (consume_serial w h.serial) (ctx_of conn_id now_ns h) packet attached
              h.opcode_raw (from_u16 h.opcode_raw) in
          record { gone = s.gone; object = s.object; seat = s.seat })))

-- A packet gives the seat at most one surface of its connection to forget.
pub pipeline-Seats :
    (w : World) (conn_id now_ns : ℕ) (packet : List ℕ) (attached : Option ℕ)
    → Seats w conn_id (pipeline w conn_id now_ns packet attached)
unfolding pipeline
pipeline-Seats w conn_id now_ns packet attached = go (Header.decode packet)
  where
    go :
        (r : Result WireError Header)
        → Seats w conn_id (after_framing w conn_id now_ns packet attached r)
    go (ok h) = header-Seats w conn_id now_ns packet attached h
    go (err x) = keep
