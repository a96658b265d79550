-- ===== src/Gui/Wire/Event.antt =====
-- wire.rs: `Event`, a reply or event of the server, and its encoder.
use dunit_os.Prelude.{ℕ, List}
use dunit_os.Prelude.Int.{ℤ}
use dunit_os.Gui.Wire.Codes.{Opcode}
use dunit_os.Gui.Wire.Writer.{
  Writer, ◌|>◌, put_u32, put_u64, put_i32, put_reserved_u32, put_str, header,
}
use dunit_os.Gui.Wire.Writer

pub data Event : Type 0 where
  welcome : (request client_id features formats : ℕ) → Event
  result : (request : ℕ) → Event
  error : (request code fatal : ℕ) → Event
  configure : (width height scale state : ℕ) → Event
  request_close : Event
  buffer_release : (commit : ℕ) → Event
  frame_done : (commit time_ns status : ℕ) → Event
  pointer_enter : (x y : ℤ) → Event
  pointer_leave : Event
  pointer_motion : (time_ns : ℕ) → (x y : ℤ) → Event
  pointer_button : (time_ns button pressed : ℕ) → Event
  pointer_axis : (time_ns : ℕ) → (dx dy : ℤ) → Event
  key_enter : (modifiers : ℕ) → Event
  key_leave : Event
  key : (time_ns usage pressed modifiers repeat : ℕ) → Event
  text_input : (time_ns : ℕ) → (text : List ℕ) → Event

-- `Event::opcode`.
unfoldable pub opcode : Event → Opcode
opcode (welcome _ _ _ _) = Opcode.welcome
opcode (result _) = Opcode.result
opcode (error _ _ _) = Opcode.error
opcode (configure _ _ _ _) = Opcode.configure
opcode request_close = Opcode.request_close
opcode (buffer_release _) = Opcode.buffer_release
opcode (frame_done _ _ _) = Opcode.frame_done
opcode (pointer_enter _ _) = Opcode.pointer_enter
opcode pointer_leave = Opcode.pointer_leave
opcode (pointer_motion _ _ _) = Opcode.pointer_motion
opcode (pointer_button _ _ _) = Opcode.pointer_button
opcode (pointer_axis _ _ _) = Opcode.pointer_axis
opcode (key_enter _) = Opcode.key_enter
opcode key_leave = Opcode.key_leave
opcode (key _ _ _ _ _) = Opcode.key
opcode (text_input _ _) = Opcode.text_input

unfoldable pub put_payload : Event → Writer → Writer
put_payload (welcome request client_id features formats) w =
    w
    |> put_u64 request
    |> put_u64 client_id
    |> put_u64 features
    |> put_u32 formats
    |> put_reserved_u32
put_payload (result request) w = w |> put_u64 request
put_payload (error request code fatal) w = w |> put_u64 request |> put_u32 code |> put_u32 fatal
put_payload (configure width height scale state) w =
    w |> put_u32 width |> put_u32 height |> put_u32 scale |> put_u32 state
put_payload request_close w = w
put_payload pointer_leave w = w
put_payload key_leave w = w
put_payload (buffer_release commit) w = w |> put_u64 commit
put_payload (frame_done commit time_ns status) w =
    w |> put_u64 commit |> put_u64 time_ns |> put_u32 status |> put_reserved_u32
put_payload (pointer_enter x y) w = w |> put_i32 x |> put_i32 y
put_payload (pointer_motion time_ns x y) w = w |> put_u64 time_ns |> put_i32 x |> put_i32 y
put_payload (pointer_button time_ns button pressed) w =
    w |> put_u64 time_ns |> put_u32 button |> put_u32 pressed
put_payload (pointer_axis time_ns dx dy) w = w |> put_u64 time_ns |> put_i32 dx |> put_i32 dy
put_payload (key_enter modifiers) w = w |> put_u32 modifiers |> put_reserved_u32
put_payload (key time_ns usage pressed modifiers repeat) w =
    w |> put_u64 time_ns |> put_u32 usage |> put_u32 pressed |> put_u32 modifiers |> put_u32 repeat
put_payload (text_input time_ns text) w = w |> put_u64 time_ns |> put_str text

-- `Event::encode`.
unfoldable pub encode : Event → ℕ → ℕ → List ℕ
unfolding opcode put_payload
encode ev object serial = Writer.finish (put_payload ev (header (opcode ev) object serial))
