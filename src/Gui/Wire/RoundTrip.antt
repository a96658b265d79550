-- ===== src/Gui/Wire/RoundTrip.antt =====
-- wire.rs: the payloads that `Request::encode` writes, before `Request::decode`.
use dunit_os.Prelude.{
  ℕ, ◌^◌, ◌<◌, ◌≡◌, refl, sym, true, List, [], ◌∷◌, ◌++◌, length, arith, append_assoc, append-nil,
}
use dunit_os.Prelude.Int.{of_i32, IsI32}
use dunit_os.Prelude.Results.{ok}
use dunit_os.Gui.Wire.Codes.{is_request}
use dunit_os.Gui.Wire.Bytes.{le_bytes}
use dunit_os.Gui.Wire.Header.{Rect}
use dunit_os.Gui.Wire.Writer.{Writer}
use dunit_os.Gui.Wire.Request.{
  Request, hello, disconnect, create_surface, destroy_surface, set_title, set_app_id, ack_configure,
  import_buffer, destroy_buffer, attach_buffer, commit, read_rect, read_damage, read_payload,
  decode, opcode, put_damage, put_payload,
}
use dunit_os.Gui.Wire.Cursor
use dunit_os.Gui.Wire.Cursor.{◌>>=◌}
use dunit_os.Gui.Wire.Parses.{
  Sees, Parses, Parses-pure, Parses->>=, Parses-u16, Parses-u32, Parses-u64, Parses-i32,
  Parses-reserved_u32, IsText, Parses-take_str, finish_at_end,
}

-- The bytes of a rectangle, and of a payload, as the protocol lists its fields.
abbrev pub rect_bytes : Rect → List ℕ
rect_bytes r =
    le_bytes 4 (of_i32 r.x)
    ++ (le_bytes 4 (of_i32 r.y) ++ (le_bytes 4 r.w ++ (le_bytes 4 r.h ++ [])))

abbrev pub damage_bytes : List Rect → List ℕ
damage_bytes [] = []
damage_bytes (r ∷ rs) = rect_bytes r ++ (damage_bytes rs ++ [])

abbrev pub payload : Request → List ℕ
payload (hello a b c d) =
    le_bytes 2 a ++ (le_bytes 2 b ++ (le_bytes 4 0 ++ (le_bytes 8 c ++ (le_bytes 8 d ++ []))))
payload disconnect = []
payload (create_surface a b c d) =
    le_bytes 4 a ++ (le_bytes 4 b ++ (le_bytes 4 c ++ (le_bytes 4 d ++ [])))
payload destroy_surface = []
payload (set_title s) = (le_bytes 2 (length s) ++ s) ++ []
payload (set_app_id s) = (le_bytes 2 (length s) ++ s) ++ []
payload (ack_configure a) = le_bytes 8 a ++ []
payload (import_buffer a b c d e) =
    le_bytes 4 a ++ (le_bytes 4 b ++ (le_bytes 4 c ++ (le_bytes 4 d ++ (le_bytes 8 e ++ []))))
payload destroy_buffer = []
payload (attach_buffer a rs) =
    le_bytes 8 a ++ (le_bytes 4 (length rs) ++ (le_bytes 4 0 ++ (damage_bytes rs ++ [])))
payload (commit a b) = le_bytes 8 a ++ (le_bytes 4 b ++ (le_bytes 4 0 ++ []))

-- The ranges of the fields' types.
abbrev pub IsRect : Rect → Type 0
IsRect r = IsI32 r.x × IsI32 r.y × (r.w < 2 ^ 32) × (r.h < 2 ^ 32)

abbrev pub AreRects : List Rect → Type 0
AreRects [] = Unit
AreRects (r ∷ rs) = IsRect r × AreRects rs

abbrev pub IsRequest : Request → Type 0
IsRequest (hello a b c d) = (a < 2 ^ 16) × (b < 2 ^ 16) × (c < 2 ^ 64) × (d < 2 ^ 64)
IsRequest disconnect = Unit
IsRequest (create_surface a b c d) = (a < 2 ^ 32) × (b < 2 ^ 32) × (c < 2 ^ 32) × (d < 2 ^ 32)
IsRequest destroy_surface = Unit
IsRequest (set_title s) = IsText s
IsRequest (set_app_id s) = IsText s
IsRequest (ack_configure a) = a < 2 ^ 64
IsRequest (import_buffer a b c d e) =
    (a < 2 ^ 32) × (b < 2 ^ 32) × (c < 2 ^ 32) × (d < 2 ^ 32) × (e < 2 ^ 64)
IsRequest destroy_buffer = Unit
IsRequest (attach_buffer a rs) = (a < 2 ^ 64) × (length rs < 2 ^ 32) × AreRects rs
IsRequest (commit a b) = (a < 2 ^ 64) × (b < 2 ^ 32)

Parses-rect : (r : Rect) → IsRect r → Parses read_rect (rect_bytes r) r
unfolding read_rect
Parses-rect r h = Parses->>= _ (Parses-i32 r.x h.0) (
    Parses->>= _ (Parses-i32 r.y h.1)
      (Parses->>= _ (Parses-u32 r.w h.2) (Parses->>= _ (Parses-u32 r.h h.3) (Parses-pure r))))

Parses-damage :
    (rs : List Rect) → AreRects rs → Parses (read_damage (length rs)) (damage_bytes rs) rs
unfolding read_damage
Parses-damage [] h = Parses-pure []
Parses-damage (r ∷ rs) h =
    Parses->>= _ (Parses-rect r h.0) (Parses->>= _ (Parses-damage rs h.1) (Parses-pure (r ∷ rs)))

Parses-payload :
    (req : Request) → IsRequest req → Parses (read_payload (opcode req)) (payload req) req
unfolding read_payload opcode
Parses-payload (hello a b c d) h = Parses->>= _ (Parses-u16 a h.0) (
    Parses->>= _ (Parses-u16 b h.1) (
      Parses->>= _ Parses-reserved_u32
        (Parses->>= _ (Parses-u64 c h.2) (Parses->>= _ (Parses-u64 d h.3) (Parses-pure _)))))
Parses-payload disconnect h = Parses-pure disconnect
Parses-payload (create_surface a b c d) h = Parses->>= _ (Parses-u32 a h.0) (
    Parses->>= _ (Parses-u32 b h.1)
      (Parses->>= _ (Parses-u32 c h.2) (Parses->>= _ (Parses-u32 d h.3) (Parses-pure _))))
Parses-payload destroy_surface h = Parses-pure destroy_surface
Parses-payload (set_title s) h = Parses->>= _ (Parses-take_str s h) (Parses-pure _)
Parses-payload (set_app_id s) h = Parses->>= _ (Parses-take_str s h) (Parses-pure _)
Parses-payload (ack_configure a) h = Parses->>= _ (Parses-u64 a h) (Parses-pure _)
Parses-payload (import_buffer a b c d e) h = Parses->>= _ (Parses-u32 a h.0) (
    Parses->>= _ (Parses-u32 b h.1) (
      Parses->>= _ (Parses-u32 c h.2)
        (Parses->>= _ (Parses-u32 d h.3) (Parses->>= _ (Parses-u64 e h.4) (Parses-pure _)))))
Parses-payload destroy_buffer h = Parses-pure destroy_buffer
Parses-payload (attach_buffer a rs) h = Parses->>= _ (Parses-u64 a h.0) (
    Parses->>= _ (Parses-u32 (length rs) h.1)
      (Parses->>= _ Parses-reserved_u32 (Parses->>= _ (Parses-damage rs h.2) (Parses-pure _))))
Parses-payload (commit a b) h =
    Parses->>= _ (Parses-u64 a h.0)
      (Parses->>= _ (Parses-u32 b h.1) (Parses->>= _ Parses-reserved_u32 (Parses-pure _)))

is_request-opcode : (req : Request) → is_request (opcode req) ≡ true
unfolding is_request opcode
is_request-opcode (hello a b c d) = refl
is_request-opcode _ = refl

pub decode-payload :
    (req : Request)
    → IsRequest req
    → length (payload req) < 2 ^ 64
    → decode (opcode req) (payload req) ≡ ok req
unfolding decode
decode-payload req h fits =
    let c = Cursor.new (payload req) in
    let start : Sees c (payload req ++ []) = record {
      rest = sym (append-nil (payload req));
      inside = omega arith;
      fits = fits;
    } in
    let (c', e, s') = (Parses-payload req h).run c [] start in
    rw (is_request-opcode req, e, ◌>>=◌, finish_at_end c' s') refl

damage_lem : (rs : List Rect) (w : Writer) → (put_damage rs w).buf ≡ w.buf ++ damage_bytes rs
unfolding put_damage
damage_lem [] w = sym (append-nil w.buf)
damage_lem (r ∷ rs) w = rw (damage_lem rs) (simp (append_assoc, append-nil))

pub payload_lem : (req : Request) (w : Writer) → (put_payload req w).buf ≡ w.buf ++ payload req
unfolding put_payload
payload_lem (attach_buffer a rs) w = rw (damage_lem rs) (simp (append_assoc, append-nil))
payload_lem (hello a b c d) w = simp (append_assoc, append-nil)
payload_lem _ w = simp (append_assoc, append-nil)
