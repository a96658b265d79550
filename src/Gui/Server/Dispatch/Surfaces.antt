-- ===== src/Gui/Server/Dispatch/Surfaces.antt =====
-- server.rs, `dispatch`: CREATE_SURFACE, DESTROY_SURFACE and ACK_CONFIGURE.
use dunit_os.Prelude.{
  ℕ, ◌+◌, ◌-◌, false, not, ◌&&◌, ◌||◌, List, [], ◌∷◌, ◌++◌, leb, ◌!=◌, ◌==◌, if◌then◌else◌,
}
use dunit_os.Prelude.Table.{remove}
use dunit_os.Prelude.Results.{◌>>=◌, ◌>>◌, reject, ok}
use dunit_os.Gui.Wire.Codes.{ErrorCode, role_toplevel}
use dunit_os.Gui.Wire.Event.{Event}
use dunit_os.Gui.Server.State.{
  Connection, Surface, new_surface, check_fresh, check_format, argb_enabled, dim_ok, max_surfaces,
  put_surface, surface_of, state_activated, frame_discarded,
}
use dunit_os.Gui.Server.Seat.{drop_surface, leave_events}
use dunit_os.Gui.Server.Step.{World, Ctx, Step, done, settle, release_buffer}

-- RESULT, then the initial CONFIGURE: the second event, so its header serial is the token.
unfoldable pub created : World → Ctx → (width height format : ℕ) → Step
created w x width height format = record {
  world = record w { conn = record c' { id_watermark = x.object; surfaces = c.surfaces + 1 } };
  events =
      (x.object, Event.result x.serial)
      ∷ (x.object, Event.configure width height 1 state_activated)
      ∷ [];
  close = false;
}
  where
    c : Connection
    c = w.conn

    c' : Connection
    c' = put_surface x.object (new_surface format width height (c.next_server_serial + 1)) c

unfoldable pub create_surface : World → Ctx → (role width height format : ℕ) → Step
create_surface w x role width height format = settle w x do
  check_fresh w.conn x.object
  reject (role != role_toplevel) ErrorCode.unsupported
  check_format format (argb_enabled w.conn)
  reject (not (dim_ok width && dim_ok height)) ErrorCode.bad_value
  reject (leb max_surfaces w.conn.surfaces) ErrorCode.limit_exceeded
  ok (created w x width height format)

-- The two buffers that a dying surface may hold, in the order in which they are released.
unfoldable pub release_pending : Surface → Connection → Connection × List (ℕ × Event)
release_pending s c =
    if s.pending_attach && s.pending_buffer != 0
    then release_buffer s.pending_buffer 0 c
    else (c, [])

unfoldable pub release_committed : Surface → Connection → Connection × List (ℕ × Event)
release_committed s c =
    if s.committed_buffer != 0
    then release_buffer s.committed_buffer s.committed_token c
    else (c, [])

-- Cleanup events precede the RESULT: LEAVE, releases, DISCARDED callback.
unfoldable pub destroyed : World → Ctx → Surface → Step
unfolding release_pending release_committed
destroyed w x s =
    let (c1, e1) = release_pending s w.conn in
    let (c2, e2) = release_committed s c1 in
    record {
      world = record w {
        conn = record c2 { objects = remove x.object c2.objects; surfaces = c2.surfaces - 1 };
        seat = drop_surface (x.conn_id, x.object) w.seat;
      };
      events =
          leave_events (x.conn_id, x.object) w.seat
          ++ (e1 ++ (e2 ++ (discarded ++ ((x.object, Event.result x.serial) ∷ []))));
      close = false;
    }
  where
    discarded : List (ℕ × Event)
    discarded =
        if s.frame_pending
        then (x.object, Event.frame_done s.frame_token x.now_ns frame_discarded) ∷ []
        else []

unfoldable pub destroy_surface : World → Ctx → Step
unfolding destroyed
destroy_surface w x = settle w x do s ← surface_of w.conn x.object; ok (destroyed w x s)

unfoldable pub ack_configure : World → Ctx → (configure : ℕ) → Step
ack_configure w x configure = settle w x do
  s ← surface_of w.conn x.object
  reject (configure != s.latest_token || s.acked_token == s.latest_token) ErrorCode.bad_serial
  ok (done w x (put_surface x.object (record s { acked_token = configure }) w.conn))
