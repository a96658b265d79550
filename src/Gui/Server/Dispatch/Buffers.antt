-- ===== src/Gui/Server/Dispatch/Buffers.antt =====
-- server.rs, `dispatch`: IMPORT_BUFFER, DESTROY_BUFFER and ATTACH_BUFFER.
use dunit_os.Prelude.{
  ℕ, ◌+◌, ◌-◌, ◌*◌, ◌%◌, ◌^◌, Bool, true, false, not, ◌&&◌, ◌||◌, List, length, any, is_empty,
  Option, none, some, leb, ltb, ◌!=◌, ◌==◌, if◌then◌else◌,
}
use dunit_os.Prelude.Int.{pos, ◌+ℤ◌, ltb_ℤ}
use dunit_os.Prelude.Table.{remove}
use dunit_os.Prelude.Results.{◌>>=◌, ◌>>◌, reject, ok}
use dunit_os.Gui.Wire.Codes.{ErrorCode, max_damage_rects}
use dunit_os.Gui.Wire.Header.{Rect}
use dunit_os.Gui.Server.State.{
  Connection, Surface, Buffer, BufState, available, pending, check_fresh, check_format,
  argb_enabled, dim_ok, max_buffers, max_stride, max_backing_bytes, max_backing_bytes_conn,
  put_surface, put_buffer, surface_of, buffer_of, checked_add64, checked_mul64,
}
use dunit_os.Gui.Server.Step.{World, Ctx, Step, done, settle}

abbrev pub is_available : BufState → Bool
is_available available = true
is_available _ = false

abbrev pub or_zero : Option ℕ → ℕ
or_zero none = 0
or_zero (some n) = n

abbrev option_bind : Option ℕ → (ℕ → Option ℕ) → Option ℕ
option_bind none f = none
option_bind (some a) f = f a

-- The end of the last row, with checked `u64` arithmetic, against the backing size.
unfoldable pub backing_fits : (width height stride offset cap_size : ℕ) → Bool
backing_fits width height stride offset cap_size =
    elim (option_bind
      (option_bind (checked_mul64 stride (height - 1)) (λ v. checked_add64 v offset))
      (λ v. checked_add64 v (width * 4))) [ none ↦ false | some end ↦ leb end cap_size ]

unfoldable pub imported : Connection → (object width height format cap_size : ℕ) → Connection
imported c object width height format cap_size = record (put_buffer object b c) {
  id_watermark = object;
  buffers = c.buffers + 1;
  backing_bytes = c.backing_bytes + cap_size;
}
  where
    b : Buffer
    b = record {
      width = width;
      height = height;
      format = format;
      backing = cap_size;
      state = available;
      commit_token = 0;
    }

unfoldable pub import_buffer :
    World → Ctx → Option ℕ → (width height stride format offset : ℕ) → Step
unfolding backing_fits imported
import_buffer w x attached width height stride format offset = settle w x do
  let cap_size = or_zero attached
  check_fresh w.conn x.object
  check_format format (argb_enabled w.conn)
  reject (not (dim_ok width && dim_ok height)) ErrorCode.bad_value
  reject (stride % 4 != 0 || (offset % 4 != 0 || ltb stride (width * 4))) ErrorCode.bad_value
  reject (ltb max_stride stride || ltb max_backing_bytes cap_size) ErrorCode.limit_exceeded
  reject (not (backing_fits width height stride offset cap_size)) ErrorCode.out_of_bounds
  reject (leb max_buffers w.conn.buffers) ErrorCode.limit_exceeded
  reject (ltb max_backing_bytes_conn (w.conn.backing_bytes + cap_size)) ErrorCode.limit_exceeded
  ok (done w x (imported w.conn x.object width height format cap_size))

unfoldable pub without : Connection → ℕ → Buffer → Connection
without c object b = record c {
  objects = remove object c.objects;
  buffers = c.buffers - 1;
  backing_bytes = c.backing_bytes - b.backing;
}

unfoldable pub destroy_buffer : World → Ctx → Step
unfolding without
destroy_buffer w x = settle w x do
  b ← buffer_of w.conn x.object
  reject (not (is_available b.state)) ErrorCode.busy
  ok (done w x (without w.conn x.object b))

-- A surface with a pending attach, and the buffer that it reserves.
abbrev pub reserve : Surface → ℕ → Surface
reserve s buffer = record s { pending_attach = true; pending_buffer = buffer }

abbrev pub reserved : Buffer → Buffer
reserved b = record b { state = pending }

-- A half-open rectangle that is empty, or not wholly inside the buffer.
unfoldable pub rect_outside : Buffer → Rect → Bool
unfolding ◌+ℤ◌
rect_outside b r =
    r.w == 0
    || (r.h == 0
        || (ltb_ℤ r.x (pos 0)
            || (ltb_ℤ r.y (pos 0)
                || (ltb_ℤ (pos b.width) (r.x +ℤ pos r.w)
                    || ltb_ℤ (pos b.height) (r.y +ℤ pos r.h)))))

unfoldable pub attach_buffer : World → Ctx → (buffer : ℕ) → List Rect → Step
unfolding rect_outside
attach_buffer w x buffer damage = settle w x do
  s ← surface_of w.conn x.object
  if buffer == 0
      then (do
        reject s.pending_attach ErrorCode.bad_state
        reject (not (is_empty damage)) ErrorCode.bad_value
        ok (done w x (put_surface x.object (reserve s 0) w.conn)))
      else do
        b ← buffer_of w.conn buffer
        reject s.pending_attach ErrorCode.bad_state
        reject (not (is_available b.state)) ErrorCode.busy
        reject (any (rect_outside b) damage) ErrorCode.out_of_bounds
        reject (ltb max_damage_rects (length damage % 2 ^ 32)) ErrorCode.limit_exceeded
        ok (
            done w x
              (put_surface x.object (reserve s buffer) (put_buffer buffer (reserved b) w.conn)))
