-- ===== src/Gui/Wire/Request.antt =====
-- wire.rs: `Request`, its structural decoder and its encoder.
use dunit_os.Prelude.{ℕ, zero, suc, not, List, [], ◌∷◌, length, if◌then◌else◌}
use dunit_os.Prelude.Results.{Result, ok, err}
use dunit_os.Gui.Wire.Codes.{Opcode, is_request}
use dunit_os.Gui.Wire.Header.{Rect, WireError, bad_opcode}
use dunit_os.Gui.Wire.Cursor.{
  Cursor, Parser, ◌>>=◌, ◌>>◌, pure, fail, u16, u32, u64, i32, reserved_u32, take_str,
}
use dunit_os.Gui.Wire.Cursor
use dunit_os.Gui.Wire.Writer.{
  Writer, ◌|>◌, put_u16, put_u32, put_u64, put_i32, put_reserved_u32, put_str, header,
}
use dunit_os.Gui.Wire.Writer

-- A string is its UTF-8 bytes.
pub data Request : Type 0 where
  hello : (min_minor max_minor offered_features required_features : ℕ) → Request
  disconnect : Request
  create_surface : (role width height format : ℕ) → Request
  destroy_surface : Request
  set_title : List ℕ → Request
  set_app_id : List ℕ → Request
  ack_configure : (configure : ℕ) → Request
  import_buffer : (width height stride format offset : ℕ) → Request
  destroy_buffer : Request
  attach_buffer : (buffer : ℕ) → (damage : List Rect) → Request
  commit : (configure frame_callback : ℕ) → Request

unfoldable pub read_rect : Parser Rect
read_rect = do x ← i32; y ← i32; w ← u32; h ← u32; pure (record { x = x; y = y; w = w; h = h })

-- `for _ in 0..damage_count`.
unfoldable pub read_damage : ℕ → Parser (List Rect)
unfolding read_rect
read_damage zero = pure []
read_damage (suc n) = do r ← read_rect; rest ← read_damage n; pure (r ∷ rest)

-- The payload of each request opcode.
unfoldable pub read_payload : Opcode → Parser Request
unfolding read_damage
read_payload Opcode.hello = do
  min_minor ← u16
  max_minor ← u16
  reserved_u32
  offered_features ← u64
  required_features ← u64
  pure (hello min_minor max_minor offered_features required_features)
read_payload Opcode.disconnect = pure disconnect
read_payload Opcode.create_surface = do
  role ← u32
  width ← u32
  height ← u32
  format ← u32
  pure (create_surface role width height format)
read_payload Opcode.destroy_surface = pure destroy_surface
read_payload Opcode.set_title = do s ← take_str; pure (set_title s)
read_payload Opcode.set_app_id = do s ← take_str; pure (set_app_id s)
read_payload Opcode.ack_configure = do configure ← u64; pure (ack_configure configure)
read_payload Opcode.import_buffer = do
  width ← u32
  height ← u32
  stride ← u32
  format ← u32
  offset ← u64
  pure (import_buffer width height stride format offset)
read_payload Opcode.destroy_buffer = pure destroy_buffer
read_payload Opcode.attach_buffer = do
  buffer ← u64
  damage_count ← u32
  reserved_u32
  damage ← read_damage damage_count
  pure (attach_buffer buffer damage)
read_payload Opcode.commit = do
  configure ← u64
  frame_callback ← u32
  reserved_u32
  pure (commit configure frame_callback)
read_payload _ = fail (bad_opcode "not a request opcode")

-- `Request::decode`: the payload must be consumed exactly.
unfoldable pub decode : Opcode → List ℕ → Result WireError Request
unfolding read_payload
decode opcode payload =
    if not (is_request opcode)
    then err (bad_opcode "not a request opcode")
    else elim (whole (Cursor.new payload)) [ ok (req, _) ↦ ok req | err e ↦ err e ]
  where
    whole : Parser Request
    whole = do req ← read_payload opcode; Cursor.finish; pure req

-- `Request::opcode`.
unfoldable pub opcode : Request → Opcode
opcode (hello _ _ _ _) = Opcode.hello
opcode disconnect = Opcode.disconnect
opcode (create_surface _ _ _ _) = Opcode.create_surface
opcode destroy_surface = Opcode.destroy_surface
opcode (set_title _) = Opcode.set_title
opcode (set_app_id _) = Opcode.set_app_id
opcode (ack_configure _) = Opcode.ack_configure
opcode (import_buffer _ _ _ _ _) = Opcode.import_buffer
opcode destroy_buffer = Opcode.destroy_buffer
opcode (attach_buffer _ _) = Opcode.attach_buffer
opcode (commit _ _) = Opcode.commit

unfoldable pub put_damage : List Rect → Writer → Writer
put_damage [] w = w
put_damage (r ∷ rs) w =
    put_damage rs (w |> put_i32 r.x |> put_i32 r.y |> put_u32 r.w |> put_u32 r.h)

unfoldable pub put_payload : Request → Writer → Writer
unfolding put_damage
put_payload (hello min_minor max_minor offered required) w =
    w
    |> put_u16 min_minor
    |> put_u16 max_minor
    |> put_reserved_u32
    |> put_u64 offered
    |> put_u64 required
put_payload disconnect w = w
put_payload destroy_surface w = w
put_payload destroy_buffer w = w
put_payload (create_surface role width height format) w =
    w |> put_u32 role |> put_u32 width |> put_u32 height |> put_u32 format
put_payload (set_title s) w = w |> put_str s
put_payload (set_app_id s) w = w |> put_str s
put_payload (ack_configure configure) w = w |> put_u64 configure
put_payload (import_buffer width height stride format offset) w =
    w |> put_u32 width |> put_u32 height |> put_u32 stride |> put_u32 format |> put_u64 offset
put_payload (attach_buffer buffer damage) w =
    w |> put_u64 buffer |> put_u32 (length damage) |> put_reserved_u32 |> put_damage damage
put_payload (commit configure frame_callback) w =
    w |> put_u64 configure |> put_u32 frame_callback |> put_reserved_u32

-- `Request::encode`.
unfoldable pub encode : Request → ℕ → ℕ → List ℕ
unfolding opcode put_payload
encode req object serial = Writer.finish (put_payload req (header (opcode req) object serial))
