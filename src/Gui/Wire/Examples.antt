-- ===== src/Gui/Wire/Examples.antt =====
-- wire.rs: packets, as examples of the codec's theorems.
use dunit_os.Prelude.{ℕ, ◌≡◌, refl, List, [], ◌∷◌, drop, some, arith}
use dunit_os.Prelude.Int.{pos}
use dunit_os.Prelude.Results.{ok}
use dunit_os.Gui.Wire.Codes.{Opcode, raw, from_u16, is_request}
use dunit_os.Gui.Wire.Header
use dunit_os.Gui.Wire.Header.{Rect}
use dunit_os.Gui.Wire.Request
use dunit_os.Gui.Wire.Request.{Request}
use dunit_os.Gui.Wire.Event
use dunit_os.Gui.Wire.Event.{Event}
use dunit_os.Gui.Wire.Framing.{header_of}
use dunit_os.Gui.Wire.RoundTrip.{payload}
use dunit_os.Gui.Wire.Bytes.{rd_u64}
use dunit_os.Gui.Wire.Cursor.{take_bytes, u64, finish}
use dunit_os.Gui.Wire.Canonical.{payload-decode}
use dunit_os.Gui.Wire.Codec.{decode-encode, event_encode-decode, event_payload}

abbrev damage : List Rect
damage = record { x = pos 0; y = pos 3; w = 5; h = 7 } ∷ []

abbrev attach : Request
attach = Request.attach_buffer 9 damage

decode-encode_example :
    (Header.decode (Request.encode attach 4 17)
      ≡ ok (header_of (Request.opcode attach) 4 17 (payload attach)))
    × (from_u16 (raw (Request.opcode attach)) ≡ some (Request.opcode attach))
    × (Request.decode (Request.opcode attach) (drop 32 (Request.encode attach 4 17)) ≡ ok attach)
decode-encode_example =
    decode-encode attach 4 17 (ground arith) (omega arith) (omega arith) (omega arith)

event_encode-decode_example :
    (Header.decode (Event.encode (Event.text_input 1 (b'h' ∷ b'i' ∷ [])) 4 2)
      ≡ ok (
          header_of
            (Event.opcode (Event.text_input 1 (b'h' ∷ b'i' ∷ [])))
            4
            2
            (event_payload (Event.text_input 1 (b'h' ∷ b'i' ∷ [])))))
    × (drop 32 (Event.encode (Event.text_input 1 (b'h' ∷ b'i' ∷ [])) 4 2)
        ≡ event_payload (Event.text_input 1 (b'h' ∷ b'i' ∷ [])))
event_encode-decode_example =
    event_encode-decode (Event.text_input 1 (b'h' ∷ b'i' ∷ [])) 4 2 (omega arith) (omega arith)
      (omega arith)

abbrev token_bytes : List ℕ
token_bytes = 5 ∷ 1 ∷ 0 ∷ 0 ∷ 0 ∷ 0 ∷ 0 ∷ 0 ∷ []

decoded : Request.decode Opcode.ack_configure token_bytes ≡ ok (Request.ack_configure 261)
unfolding Request.decode Request.read_payload u64 take_bytes rd_u64 finish is_request
decoded = refl

payload-decode_example :
    (token_bytes ≡ payload (Request.ack_configure 261))
    × (Request.opcode (Request.ack_configure 261) ≡ Opcode.ack_configure)
payload-decode_example =
    payload-decode Opcode.ack_configure token_bytes (Request.ack_configure 261) (ground arith)
      decoded
