-- ===== src/Gui/Server/Dispatch/Commit.antt =====
-- server.rs, `dispatch`: COMMIT, of an unmap attach and of a buffer.
use dunit_os.Prelude.{
  ℕ, Bool, true, false, not, ◌&&◌, ◌||◌, List, [], ◌∷◌, ◌++◌, Option, none, some, ltb, ◌!=◌, ◌==◌,
  if◌then◌else◌,
}
use dunit_os.Prelude.Results.{Result, ◌>>=◌, ◌>>◌, reject, ok, err}
use dunit_os.Gui.Wire.Codes.{ErrorCode}
use dunit_os.Gui.Wire.Event.{Event}
use dunit_os.Gui.Server.State.{
  Connection, Surface, Buffer, busy, put_surface, put_buffer, surface_of, buffer_of,
  configure_ready, checked_mul32, frame_discarded,
}
use dunit_os.Gui.Server.Seat.{drop_surface, leave_events}
use dunit_os.Gui.Server.Step.{World, Ctx, Step, settle, release_buffer}

-- The buffer that a commit replaces is released, if there is one.
unfoldable pub release_old : Bool → ℕ → ℕ → Connection → Connection × List (ℕ × Event)
release_old held old token c = if held then release_buffer old token c else (c, [])

abbrev pub unmapped : Surface → Surface
unmapped s = record s {
  committed_buffer = 0;
  committed_token = 0;
  mapped = false;
  pending_attach = false;
  pending_buffer = 0;
  frame_pending = false;
}

-- The callback that an unmap discards: the pending one, else the one that comes with the commit.
unfoldable pub discard_events : Ctx → Surface → (frame_callback : ℕ) → List (ℕ × Event)
discard_events x s frame_callback =
    if s.frame_pending
    then frame_done s.frame_token
    else if frame_callback == 1
    then frame_done x.serial
    else []
  where
    frame_done : ℕ → List (ℕ × Event)
    frame_done t = (x.object, Event.frame_done t x.now_ns frame_discarded) ∷ []

-- RESULT first, then LEAVE, the release and the DISCARDED callback.
unfoldable pub commit_unmap : World → Ctx → Surface → (frame_callback : ℕ) → Step
unfolding release_old discard_events
commit_unmap w x s frame_callback =
    let (c1, e1) =
      release_old (s.committed_buffer != 0) s.committed_buffer s.committed_token
        (put_surface x.object (unmapped s) w.conn) in
    record {
      world = record w { conn = c1; seat = drop_surface (x.conn_id, x.object) w.seat };
      events =
          (x.object, Event.result x.serial)
          ∷ (leave_events (x.conn_id, x.object) w.seat
              ++ (e1 ++ discard_events x s frame_callback));
      close = false;
    }

-- `checked_mul(...).zip(checked_mul(...))`.
abbrev pub pixel_size : Surface → Option (ℕ × ℕ)
pixel_size s = elim (checked_mul32 s.width s.scale) [
  | none ↦ none
  | some w ↦ elim (checked_mul32 s.height s.scale) [ none ↦ none | some h ↦ some (w, h) ]
]

abbrev pub check_size : Surface → Buffer → Option (ℕ × ℕ) → Result ErrorCode (Unit {0})
check_size s b none = err ErrorCode.out_of_bounds
check_size s b (some (pw, ph)) =
    reject (b.width != pw || (b.height != ph || b.format != s.format)) ErrorCode.bad_value

abbrev pub committed : Surface → ℕ → (frame_callback : ℕ) → Surface
committed s serial frame_callback = record s {
  committed_buffer = s.pending_buffer;
  committed_token = serial;
  mapped = true;
  pending_attach = false;
  pending_buffer = 0;
  frame_pending = if frame_callback == 1 then true else s.frame_pending;
  frame_token = if frame_callback == 1 then serial else s.frame_token;
}

abbrev pub in_use : Buffer → ℕ → Buffer
in_use b serial = record b { state = busy; commit_token = serial }

-- The pending buffer becomes BUSY, and the one that it replaces is released.
unfoldable pub commit_map : World → Ctx → Surface → Buffer → (frame_callback : ℕ) → Step
unfolding release_old
commit_map w x s b frame_callback =
    let (c1, e1) =
      release_old (s.committed_buffer != 0 && s.committed_buffer != s.pending_buffer)
        s.committed_buffer s.committed_token
        (put_surface x.object (committed s x.serial frame_callback)
          (put_buffer s.pending_buffer (in_use b x.serial) w.conn)) in
    record {
      world = record w { conn = c1 };
      events = (x.object, Event.result x.serial) ∷ e1;
      close = false;
    }

unfoldable pub commit : World → Ctx → (configure frame_callback : ℕ) → Step
unfolding commit_unmap commit_map
commit w x configure frame_callback = settle w x do
  reject (ltb 1 frame_callback) ErrorCode.bad_value
  s ← surface_of w.conn x.object
  reject (not s.pending_attach) ErrorCode.bad_state
  reject (not (configure_ready s configure)) ErrorCode.bad_serial
  reject (frame_callback == 1 && s.frame_pending) ErrorCode.busy
  if s.pending_buffer == 0 then ok (commit_unmap w x s frame_callback) else do
    b ← buffer_of w.conn s.pending_buffer
    check_size s b (pixel_size s)
    ok (commit_map w x s b frame_callback)
