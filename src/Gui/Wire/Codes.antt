-- ===== src/Gui/Wire/Codes.antt =====
-- The codes of protocols/gui-v1/src/wire.rs: protocol constants, error codes and opcodes.
use dunit_os.Prelude.{ℕ, Bool, true, false, Option, none, some, ◌==◌, if◌then◌else◌, bit_and}

-- `DGUI` as a little-endian `u32`.
abbrev pub magic : ℕ
magic = 0x4955_4744

abbrev pub header_len : ℕ
header_len = 32

abbrev pub min_packet : ℕ
min_packet = 32

abbrev pub max_packet : ℕ
max_packet = 256

abbrev pub version_major : ℕ
version_major = 1

abbrev pub version_minor : ℕ
version_minor = 0

abbrev pub feature_argb8888 : ℕ
feature_argb8888 = 1

abbrev pub format_xrgb8888 : ℕ
format_xrgb8888 = 1

abbrev pub format_argb8888 : ℕ
format_argb8888 = 2

abbrev pub formats_xrgb8888 : ℕ
formats_xrgb8888 = 1

abbrev pub formats_argb8888 : ℕ
formats_argb8888 = 2

abbrev pub role_toplevel : ℕ
role_toplevel = 1

abbrev pub policy_opcode_lo : ℕ
policy_opcode_lo = 0x1000

abbrev pub policy_opcode_hi : ℕ
policy_opcode_hi = 0x1fff

abbrev pub dim_min : ℕ
dim_min = 1

abbrev pub dim_max : ℕ
dim_max = 4096

abbrev pub max_damage_rects : ℕ
max_damage_rects = 8

pub data ErrorCode : Type 0 where
  malformed version_mismatch bad_opcode bad_state stale_object wrong_object_type : ErrorCode
  bad_serial bad_value unsupported access_denied out_of_bounds busy : ErrorCode
  limit_exceeded no_memory slow_client internal : ErrorCode

-- `ErrorCode::code`: the numeric wire value.
unfoldable pub code : ErrorCode → ℕ
code malformed = 1
code version_mismatch = 2
code bad_opcode = 3
code bad_state = 4
code stale_object = 5
code wrong_object_type = 6
code bad_serial = 7
code bad_value = 8
code unsupported = 9
code access_denied = 10
code out_of_bounds = 11
code busy = 12
code limit_exceeded = 13
code no_memory = 14
code slow_client = 15
code internal = 16

-- `ErrorCode::always_fatal`.
unfoldable pub always_fatal : ErrorCode → Bool
always_fatal malformed = true
always_fatal version_mismatch = true
always_fatal bad_opcode = true
always_fatal slow_client = true
always_fatal internal = true
always_fatal _ = false

pub data Opcode : Type 0 where
  hello disconnect create_surface destroy_surface set_title set_app_id : Opcode
  ack_configure import_buffer destroy_buffer attach_buffer commit welcome : Opcode
  result error configure request_close buffer_release frame_done : Opcode
  pointer_enter pointer_leave pointer_motion pointer_button pointer_axis key_enter : Opcode
  key_leave key text_input : Opcode

-- `Opcode::raw`: the wire value of an opcode.
unfoldable pub raw : Opcode → ℕ
raw Opcode.hello = 0x0001
raw Opcode.disconnect = 0x0002
raw Opcode.create_surface = 0x0010
raw Opcode.destroy_surface = 0x0011
raw Opcode.set_title = 0x0012
raw Opcode.set_app_id = 0x0013
raw Opcode.ack_configure = 0x0014
raw Opcode.import_buffer = 0x0020
raw Opcode.destroy_buffer = 0x0021
raw Opcode.attach_buffer = 0x0022
raw Opcode.commit = 0x0023
raw Opcode.welcome = 0x8001
raw Opcode.result = 0x8002
raw Opcode.error = 0x8003
raw Opcode.configure = 0x8010
raw Opcode.request_close = 0x8011
raw Opcode.buffer_release = 0x8020
raw Opcode.frame_done = 0x8021
raw Opcode.pointer_enter = 0x8030
raw Opcode.pointer_leave = 0x8031
raw Opcode.pointer_motion = 0x8032
raw Opcode.pointer_button = 0x8033
raw Opcode.pointer_axis = 0x8034
raw Opcode.key_enter = 0x8040
raw Opcode.key_leave = 0x8041
raw Opcode.key = 0x8042
raw Opcode.text_input = 0x8043

-- `Opcode::from_u16`: the known opcode of a wire value.
unfoldable pub from_u16 : ℕ → Option Opcode
from_u16 v =
    if v == 0x0001
    then some Opcode.hello
    else if v == 0x0002
    then some Opcode.disconnect
    else if v == 0x0010
    then some Opcode.create_surface
    else if v == 0x0011
    then some Opcode.destroy_surface
    else if v == 0x0012
    then some Opcode.set_title
    else if v == 0x0013
    then some Opcode.set_app_id
    else if v == 0x0014
    then some Opcode.ack_configure
    else if v == 0x0020
    then some Opcode.import_buffer
    else if v == 0x0021
    then some Opcode.destroy_buffer
    else if v == 0x0022
    then some Opcode.attach_buffer
    else if v == 0x0023
    then some Opcode.commit
    else if v == 0x8001
    then some Opcode.welcome
    else if v == 0x8002
    then some Opcode.result
    else if v == 0x8003
    then some Opcode.error
    else if v == 0x8010
    then some Opcode.configure
    else if v == 0x8011
    then some Opcode.request_close
    else if v == 0x8020
    then some Opcode.buffer_release
    else if v == 0x8021
    then some Opcode.frame_done
    else if v == 0x8030
    then some Opcode.pointer_enter
    else if v == 0x8031
    then some Opcode.pointer_leave
    else if v == 0x8032
    then some Opcode.pointer_motion
    else if v == 0x8033
    then some Opcode.pointer_button
    else if v == 0x8034
    then some Opcode.pointer_axis
    else if v == 0x8040
    then some Opcode.key_enter
    else if v == 0x8041
    then some Opcode.key_leave
    else if v == 0x8042
    then some Opcode.key
    else if v == 0x8043
    then some Opcode.text_input
    else none

-- `Opcode::is_request`: no 0x8000 bit.
unfoldable pub is_request : Opcode → Bool
unfolding raw
is_request op = bit_and (raw op) 0x8000 == 0
