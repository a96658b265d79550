-- ===== src/Gui/Server/State.antt =====
-- protocols/gui-v1/src/server.rs: limits, objects and the per-connection state with its checks.
use dunit_os.Prelude.{
  ℕ, ◌*◌, ◌+◌, ◌^◌, Bool, true, false, ◌&&◌, ◌||◌, List, [], length, all, Option, none, some, ltb,
  leb, ◌==◌, ◌!=◌, if◌then◌else◌, bit_and,
}
use dunit_os.Prelude.Table.{Table, lookup, insert, size}
use dunit_os.Prelude.Results.{Result, ok, err}
use dunit_os.Gui.Wire.Codes.{
  ErrorCode, feature_argb8888, format_xrgb8888, format_argb8888, dim_min, dim_max,
}

abbrev pub hello_timeout_ns : ℕ
hello_timeout_ns = 5_000_000_000

abbrev pub max_connections : ℕ
max_connections = 64

abbrev pub max_surfaces : ℕ
max_surfaces = 64

abbrev pub max_buffers : ℕ
max_buffers = 192

abbrev pub max_backing_bytes : ℕ
max_backing_bytes = 64 * 1024 * 1024

abbrev pub max_backing_bytes_conn : ℕ
max_backing_bytes_conn = 256 * 1024 * 1024

abbrev pub max_stride : ℕ
max_stride = 16384

abbrev pub max_title_bytes : ℕ
max_title_bytes = 160

abbrev pub max_app_id_bytes : ℕ
max_app_id_bytes = 128

abbrev pub max_text_bytes : ℕ
max_text_bytes = 160

abbrev pub max_held_keys : ℕ
max_held_keys = 256

abbrev pub frame_presented : ℕ
frame_presented = 0

abbrev pub frame_discarded : ℕ
frame_discarded = 1

abbrev pub state_activated : ℕ
state_activated = 1

-- A global input target: the connection that owns a surface, and its object id.
abbrev pub Target : Type 0
Target = ℕ × ℕ

pub data ObjKind : Type 0 where
  surface buffer : ObjKind

pub data BufState : Type 0 where
  available pending busy : BufState

pub record Buffer : Type 0 where
  pub width : ℕ
  pub height : ℕ
  pub format : ℕ
  pub backing : ℕ
  pub state : BufState
  pub commit_token : ℕ

pub record Surface : Type 0 where
  pub format : ℕ
  pub width : ℕ
  pub height : ℕ
  pub scale : ℕ
  pub state : ℕ
  pub latest_token : ℕ
  pub acked_token : ℕ
  pub pending_attach : Bool
  pub pending_buffer : ℕ
  pub committed_buffer : ℕ
  pub committed_token : ℕ
  pub mapped : Bool
  pub frame_pending : Bool
  pub frame_token : ℕ

-- `Surface::new`.
abbrev pub new_surface : ℕ → ℕ → ℕ → ℕ → Surface
new_surface format width height token = record {
  format = format;
  width = width;
  height = height;
  scale = 1;
  state = state_activated;
  latest_token = token;
  acked_token = 0;
  pending_attach = false;
  pending_buffer = 0;
  committed_buffer = 0;
  committed_token = 0;
  mapped = false;
  frame_pending = false;
  frame_token = 0;
}

-- `Surface::configure_ready`.
abbrev pub configure_ready : Surface → ℕ → Bool
configure_ready s token = token == s.latest_token && s.acked_token == s.latest_token

pub data Object : Type 0 where
  surface : Surface → Object
  buffer : Buffer → Object

-- `Object::kind`.
abbrev pub kind : Object → ObjKind
kind (Object.surface s) = ObjKind.surface
kind (Object.buffer b) = ObjKind.buffer

abbrev pub same_kind : ObjKind → ObjKind → Bool
same_kind ObjKind.surface ObjKind.surface = true
same_kind ObjKind.buffer ObjKind.buffer = true
same_kind _ _ = false

pub data Phase : Type 0 where
  fresh active closed : Phase

abbrev pub is_closed_phase : Phase → Bool
is_closed_phase closed = true
is_closed_phase _ = false

abbrev pub is_active_phase : Phase → Bool
is_active_phase active = true
is_active_phase _ = false

abbrev pub is_fresh_phase : Phase → Bool
is_fresh_phase fresh = true
is_fresh_phase _ = false

pub record Connection : Type 0 where
  pub phase : Phase
  pub created_ns : ℕ
  pub last_client_serial : ℕ
  pub next_server_serial : ℕ
  pub features : ℕ
  pub client_id : ℕ
  pub objects : Table Object
  pub id_watermark : ℕ
  pub surfaces : ℕ
  pub buffers : ℕ
  pub backing_bytes : ℕ

-- `Connection::new`.
abbrev pub new_connection : ℕ → Connection
new_connection now_ns = record {
  phase = fresh;
  created_ns = now_ns;
  last_client_serial = 0;
  next_server_serial = 1;
  features = 0;
  client_id = 0;
  objects = [];
  id_watermark = 0;
  surfaces = 0;
  buffers = 0;
  backing_bytes = 0;
}

unfoldable pub argb_enabled : Connection → Bool
argb_enabled c = bit_and c.features feature_argb8888 != 0

unfoldable pub object_count : Connection → ℕ
object_count c = size c.objects

-- `Connection::require`: existence, then type.
unfoldable pub require : Connection → ℕ → ObjKind → Result ErrorCode (Unit {0})
require c id k = elim (lookup id c.objects) [
  | none ↦ err ErrorCode.stale_object
  | some o ↦ if same_kind (kind o) k then ok tt else err ErrorCode.wrong_object_type
]

-- `Connection::check_fresh`: nonzero, and above every id created before.
unfoldable pub check_fresh : Connection → ℕ → Result ErrorCode (Unit {0})
check_fresh c id = if id == 0 || leb id c.id_watermark then err ErrorCode.bad_value else ok tt

abbrev pub as_surface : Option Object → Result ErrorCode Surface
as_surface none = err ErrorCode.stale_object
as_surface (some (Object.surface s)) = ok s
as_surface (some (Object.buffer b)) = err ErrorCode.wrong_object_type

abbrev pub as_buffer : Option Object → Result ErrorCode Buffer
as_buffer none = err ErrorCode.stale_object
as_buffer (some (Object.buffer b)) = ok b
as_buffer (some (Object.surface s)) = err ErrorCode.wrong_object_type

-- `Connection::surface_of` and `Connection::buffer_of`.
unfoldable pub surface_of : Connection → ℕ → Result ErrorCode Surface
surface_of c id = as_surface (lookup id c.objects)

unfoldable pub buffer_of : Connection → ℕ → Result ErrorCode Buffer
buffer_of c id = as_buffer (lookup id c.objects)

unfoldable pub put_surface : ℕ → Surface → Connection → Connection
put_surface id s c = record c { objects = insert id (Object.surface s) c.objects }

unfoldable pub put_buffer : ℕ → Buffer → Connection → Connection
put_buffer id b c = record c { objects = insert id (Object.buffer b) c.objects }

unfoldable pub check_format : ℕ → Bool → Result ErrorCode (Unit {0})
check_format fmt argb =
    if fmt == format_xrgb8888
    then ok tt
    else if fmt == format_argb8888
    then (if argb then ok tt else err ErrorCode.unsupported)
    else err ErrorCode.bad_value

-- ASCII letters and digits, and `.`, `_`, `-`.
abbrev app_id_byte : ℕ → Bool
app_id_byte b =
    leb b'0' b && leb b b'9'
    || leb b'A' b && leb b b'Z'
    || leb b'a' b && leb b b'z'
    || b == b'.'
    || b == b'_'
    || b == b'-'

unfoldable pub app_id_ok : List ℕ → Bool
app_id_ok bytes =
    leb 1 (length bytes) && leb (length bytes) max_app_id_bytes && all app_id_byte bytes

unfoldable pub dim_ok : ℕ → Bool
dim_ok v = leb dim_min v && leb v dim_max

-- `checked_add` and `checked_mul`, on `u64` and on `u32`.
abbrev pub checked_add64 : ℕ → ℕ → Option ℕ
checked_add64 a b = if ltb (a + b) (2 ^ 64) then some (a + b) else none

abbrev pub checked_mul64 : ℕ → ℕ → Option ℕ
checked_mul64 a b = if ltb (a * b) (2 ^ 64) then some (a * b) else none

abbrev pub checked_mul32 : ℕ → ℕ → Option ℕ
checked_mul32 a b = if ltb (a * b) (2 ^ 32) then some (a * b) else none
