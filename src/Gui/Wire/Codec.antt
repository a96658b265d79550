-- ===== src/Gui/Wire/Codec.antt =====
-- wire.rs: the opcode table, and whole packets of requests and events.
use dunit_os.Prelude.{
  ℕ, ◌+◌, ◌^◌, ◌≤◌, ◌<◌, ◌≡◌, refl, List, [], ◌++◌, length, drop, some, arith, append_assoc,
  append-nil,
}
use dunit_os.Prelude.Results.{ok}
use dunit_os.Prelude.Int.{of_i32}
use dunit_os.Gui.Wire.Codes.{Opcode, raw, from_u16}
use dunit_os.Gui.Wire.Bytes.{le_bytes}
use dunit_os.Gui.Wire.Header
use dunit_os.Gui.Wire.Request.{Request, opcode, encode, decode}
use dunit_os.Gui.Wire.Event
use dunit_os.Gui.Wire.Event.{
  Event, welcome, result, error, configure, request_close, buffer_release, frame_done,
  pointer_enter, pointer_leave, pointer_motion, pointer_button, pointer_axis, key_enter, key_leave,
  key, text_input,
}
use dunit_os.Gui.Wire.Writer.{Writer, header}
use dunit_os.Gui.Wire.RoundTrip.{payload, IsRequest, payload_lem, decode-payload}
use dunit_os.Gui.Wire.Framing.{header_of, finish-frame, decode-frame}

-- `from_u16` recognises the wire value of every opcode as that opcode.
pub from_u16-raw : (op : Opcode) → from_u16 (raw op) ≡ some op
unfolding from_u16 raw
from_u16-raw Opcode.hello = refl
from_u16-raw _ = refl

-- A request whose fields fit their types and whose packet is at most 256 bytes, once encoded, passes
-- the framing check with the object, serial and opcode given; its opcode is recognised; and the
-- bytes behind the header decode to the same request.
pub decode-encode :
    (req : Request) (object serial : ℕ)
    → IsRequest req
    → object < 2 ^ 64
    → serial < 2 ^ 64
    → length (payload req) ≤ 224
    → (Header.decode (encode req object serial)
        ≡ ok (header_of (opcode req) object serial (payload req)))
      × (from_u16 (raw (opcode req)) ≡ some (opcode req))
      × (decode (opcode req) (drop 32 (encode req object serial)) ≡ ok req)
unfolding encode
decode-encode req object serial h ho hs hp =
    let e =
      finish-frame (opcode req) object serial (payload req) _
        (payload_lem req (header (opcode req) object serial)) in
    (
      rw e (decode-frame (opcode req) object serial (payload req) ho hs hp),
      from_u16-raw (opcode req),
      rw e (decode-payload req h (omega arith)),
    )

-- The bytes of an event's payload, as the protocol lists its fields.
abbrev pub event_payload : Event → List ℕ
event_payload (welcome a b c d) =
    le_bytes 8 a ++ (le_bytes 8 b ++ (le_bytes 8 c ++ (le_bytes 4 d ++ le_bytes 4 0)))
event_payload (result a) = le_bytes 8 a
event_payload (error a b c) = le_bytes 8 a ++ (le_bytes 4 b ++ le_bytes 4 c)
event_payload (configure a b c d) = le_bytes 4 a ++ (le_bytes 4 b ++ (le_bytes 4 c ++ le_bytes 4 d))
event_payload request_close = []
event_payload (buffer_release a) = le_bytes 8 a
event_payload (frame_done a b c) = le_bytes 8 a ++ (le_bytes 8 b ++ (le_bytes 4 c ++ le_bytes 4 0))
event_payload (pointer_enter x y) = le_bytes 4 (of_i32 x) ++ le_bytes 4 (of_i32 y)
event_payload pointer_leave = []
event_payload (pointer_motion t x y) =
    le_bytes 8 t ++ (le_bytes 4 (of_i32 x) ++ le_bytes 4 (of_i32 y))
event_payload (pointer_button t a b) = le_bytes 8 t ++ (le_bytes 4 a ++ le_bytes 4 b)
event_payload (pointer_axis t x y) =
    le_bytes 8 t ++ (le_bytes 4 (of_i32 x) ++ le_bytes 4 (of_i32 y))
event_payload (key_enter a) = le_bytes 4 a ++ le_bytes 4 0
event_payload key_leave = []
event_payload (key t a b c d) =
    le_bytes 8 t ++ (le_bytes 4 a ++ (le_bytes 4 b ++ (le_bytes 4 c ++ le_bytes 4 d)))
event_payload (text_input t s) = le_bytes 8 t ++ (le_bytes 2 (length s) ++ s)

event_payload_lem :
    (ev : Event) (w : Writer) → (Event.put_payload ev w).buf ≡ w.buf ++ event_payload ev
unfolding Event.put_payload
event_payload_lem (welcome a b c d) w = simp append_assoc
event_payload_lem request_close w = simp append-nil
event_payload_lem pointer_leave w = simp append-nil
event_payload_lem key_leave w = simp append-nil
event_payload_lem (result a) w = refl
event_payload_lem (buffer_release a) w = refl
event_payload_lem _ w = simp append_assoc

-- The text of an event; empty for all events but one.
abbrev pub event_text : Event → List ℕ
event_text (text_input t s) = s
event_text _ = []

event_payload-le : (ev : Event) → length (event_payload ev) ≤ length (event_text ev) + 32
event_payload-le (text_input t s) = omega arith
event_payload-le _ = omega arith

-- Every event whose text is at most 192 bytes is encoded to a packet that passes the framing check,
-- with the event's opcode and the object and serial given, and carries exactly the event's fields.
pub event_encode-decode :
    (ev : Event) (object serial : ℕ)
    → object < 2 ^ 64
    → serial < 2 ^ 64
    → length (event_text ev) ≤ 192
    → (Header.decode (Event.encode ev object serial)
        ≡ ok (header_of (Event.opcode ev) object serial (event_payload ev)))
      × (drop 32 (Event.encode ev object serial) ≡ event_payload ev)
unfolding Event.encode
event_encode-decode ev object serial ho hs ht =
    let e =
      finish-frame (Event.opcode ev) object serial (event_payload ev) _
        (event_payload_lem ev (header (Event.opcode ev) object serial)) in
    (
      rw e (
          decode-frame (Event.opcode ev) object serial (event_payload ev) ho hs
            (omega (arith, event_payload-le ev))),
      rw e refl,
    )
