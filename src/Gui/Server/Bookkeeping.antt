-- ===== src/Gui/Server/Bookkeeping.antt =====
-- server.rs: the bookkeeping of a connection through each arm of `dispatch`.
use dunit_os.Prelude.{ℕ, ◌+◌, ◌≤◌, ◌<◌, ◌≡◌, refl, Bool, Option, arith, ◌==◌, leb}
use dunit_os.Prelude.Results.{
  Result, ok, err, reject, Ensures, Ensures-ok, Ensures->>=, Ensures->>, Ensures-if, reject-eq-ok,
}
use dunit_os.Gui.Wire.Codes.{ErrorCode}
use dunit_os.Gui.Wire.Request.{Request}
use dunit_os.Gui.Server.State.{
  Connection, Object, Surface, Buffer, surface_of, buffer_of, put_surface, put_buffer, check_fresh,
  max_surfaces, max_buffers, max_backing_bytes_conn,
}
use dunit_os.Gui.Server.Step.{World, Ctx, Step, settle}
use dunit_os.Gui.Server.Dispatch.{dispatch}
use dunit_os.Gui.Server.Dispatch.Session
use dunit_os.Gui.Server.Dispatch.Surfaces
use dunit_os.Gui.Server.Dispatch.Buffers
use dunit_os.Gui.Server.Dispatch.Commit
use dunit_os.Gui.Server.Consistent.{
  IsConsistent, put_surface-IsConsistent, put_buffer-IsConsistent, release_buffer-IsConsistent,
  add-IsConsistent, drop-IsConsistent, surface_of-release_buffer, surface_of-put_buffer,
  surface_of-eq-ok, buffer_of-eq-ok,
}

abbrev Keeps : Step → Type 0
Keeps s = IsConsistent s.world.conn

-- As a record, so that an arm's state is found from the goal.
record Kept (s : Step) : Type 0 where
  kept : Keeps s

settle-Kept :
    (w : World) (x : Ctx) {m : Result ErrorCode Step}
    → IsConsistent w.conn
    → Ensures m Keeps
    → Kept (settle w x m)
unfolding settle
settle-Kept w x {m = ok s} v h = record { kept = h.holds s refl }
settle-Kept w x {m = err e} v h = record { kept = v }

pub check_fresh-lt : (c : Connection) (id : ℕ) → check_fresh c id ≡ ok tt → c.id_watermark < id
unfolding check_fresh
check_fresh-lt c id h = ground arith

created-Keeps :
    (w : World) (x : Ctx) (width height format : ℕ)
    → IsConsistent w.conn
    → check_fresh w.conn x.object ≡ ok tt
    → reject (leb max_surfaces w.conn.surfaces) ErrorCode.limit_exceeded ≡ ok tt
    → Keeps (Surfaces.created w x width height format)
unfolding Surfaces.created put_surface
created-Keeps w x width height format v h k =
    let room = reject-eq-ok (leb max_surfaces w.conn.surfaces) ErrorCode.limit_exceeded k in
    add-IsConsistent x.object (Object.surface _) (w.conn.surfaces + 1) w.conn.buffers
      w.conn.backing_bytes v (check_fresh-lt w.conn x.object h) (refl, ground (arith, room))
      (omega arith, v.buffers_max) (omega arith, v.backing_max)

release_pending-Keeps :
    {c : Connection} (s : Surface) → IsConsistent c → IsConsistent (Surfaces.release_pending s c).0
unfolding Surfaces.release_pending
release_pending-Keeps s v = ground (arith, release_buffer-IsConsistent s.pending_buffer 0 v)

release_committed-Keeps :
    {c : Connection} (s : Surface)
    → IsConsistent c
    → IsConsistent (Surfaces.release_committed s c).0
unfolding Surfaces.release_committed
release_committed-Keeps s v =
    ground (arith, release_buffer-IsConsistent s.committed_buffer s.committed_token v)

surface_of-pending :
    (c : Connection) (j : ℕ) (t : Surface) {s : Surface}
    → surface_of c j ≡ ok s
    → surface_of (Surfaces.release_pending t c).0 j ≡ ok s
unfolding Surfaces.release_pending
surface_of-pending c j t e = ground (arith, surface_of-release_buffer c t.pending_buffer 0 j e)

surface_of-committed :
    (c : Connection) (j : ℕ) (t : Surface) {s : Surface}
    → surface_of c j ≡ ok s
    → surface_of (Surfaces.release_committed t c).0 j ≡ ok s
unfolding Surfaces.release_committed
surface_of-committed c j t e =
    ground (arith, surface_of-release_buffer c t.committed_buffer t.committed_token j e)

destroyed-Keeps :
    (w : World) (x : Ctx) (s : Surface)
    → IsConsistent w.conn
    → surface_of w.conn x.object ≡ ok s
    → Keeps (Surfaces.destroyed w x s)
unfolding Surfaces.destroyed
destroyed-Keeps w x s v e =
    let (c1, e1) = Surfaces.release_pending s w.conn in
    drop-IsConsistent x.object (Object.surface s) _ _ _
      (release_committed-Keeps s (release_pending-Keeps s v))
      (surface_of-eq-ok (Surfaces.release_committed s c1).0 x.object
        (surface_of-committed c1 x.object s (surface_of-pending w.conn x.object s e)))
      refl (omega arith) (omega arith)

imported-Keeps :
    {c : Connection} (object width height format size : ℕ)
    → IsConsistent c
    → c.id_watermark < object
    → c.buffers < max_buffers
    → c.backing_bytes + size ≤ max_backing_bytes_conn
    → IsConsistent (Buffers.imported c object width height format size)
unfolding Buffers.imported put_buffer
imported-Keeps {c} object width height format size v h h1 h2 =
    add-IsConsistent object (Object.buffer _) c.surfaces (c.buffers + 1) (c.backing_bytes + size) v
      h (omega arith, v.surfaces_max) (refl, omega arith) (refl, h2)

reserve-Keeps :
    {c : Connection} (object buffer : ℕ) (s : Surface) (b : Buffer)
    → IsConsistent c
    → surface_of c object ≡ ok s
    → buffer_of c buffer ≡ ok b
    → IsConsistent
        (put_surface object (Buffers.reserve s buffer) (put_buffer buffer (Buffers.reserved b) c))
reserve-Keeps {c} object buffer s b v hs hb =
    put_surface-IsConsistent object s _
      (put_buffer-IsConsistent buffer b (Buffers.reserved b) v hb refl)
      (surface_of-put_buffer c object buffer s b _ hs hb)

release_old-Keeps :
    {c : Connection} (held : Bool) (old t : ℕ)
    → IsConsistent c
    → IsConsistent (Commit.release_old held old t c).0
unfolding Commit.release_old
release_old-Keeps held old t v = ground (arith, release_buffer-IsConsistent old t v)

unmap-Keeps :
    (w : World) (x : Ctx) (s : Surface) (fc : ℕ)
    → IsConsistent w.conn
    → surface_of w.conn x.object ≡ ok s
    → Keeps (Commit.commit_unmap w x s fc)
unfolding Commit.commit_unmap
unmap-Keeps w x s fc v e =
    release_old-Keeps _ s.committed_buffer s.committed_token
      (put_surface-IsConsistent x.object s _ v e)

map-Keeps :
    (w : World) (x : Ctx) (s : Surface) (b : Buffer) (fc : ℕ)
    → IsConsistent w.conn
    → surface_of w.conn x.object ≡ ok s
    → buffer_of w.conn s.pending_buffer ≡ ok b
    → Keeps (Commit.commit_map w x s b fc)
unfolding Commit.commit_map
map-Keeps w x s b fc v hs hb = release_old-Keeps _ s.committed_buffer s.committed_token (
    put_surface-IsConsistent x.object s _
      (put_buffer-IsConsistent s.pending_buffer b (Commit.in_use b x.serial) v hb refl)
      (surface_of-put_buffer w.conn x.object s.pending_buffer s b _ hs hb))

without-Keeps :
    {c : Connection} (object : ℕ) (b : Buffer)
    → IsConsistent c
    → buffer_of c object ≡ ok b
    → IsConsistent (Buffers.without c object b)
unfolding Buffers.without
without-Keeps {c} object b v e =
    drop-IsConsistent object (Object.buffer b) _ _ _ v (buffer_of-eq-ok c object e) (omega arith)
      refl refl

dispatch-Kept :
    (w : World) (x : Ctx) (req : Request) (attached : Option ℕ)
    → IsConsistent w.conn
    → Kept (dispatch w x req attached)
unfolding dispatch Session.hello Session.welcome Session.disconnect Session.set_title
    Session.set_app_id Surfaces.create_surface Surfaces.destroy_surface Surfaces.ack_configure
    Buffers.import_buffer Buffers.destroy_buffer Buffers.attach_buffer Commit.commit
dispatch-Kept w x (Request.hello a b c d) attached v = record { kept = ground arith }
dispatch-Kept w x Request.disconnect attached v = record { kept = v }
dispatch-Kept w x (Request.set_title s) attached v =
    settle-Kept w x v (Ensures->> _ _ λ _. Ensures->> _ _ λ _. Ensures-ok Keeps v)
dispatch-Kept w x (Request.set_app_id s) attached v =
    settle-Kept w x v (Ensures->> _ _ λ _. Ensures->> _ _ λ _. Ensures-ok Keeps v)
dispatch-Kept w x (Request.create_surface a b c d) attached v = settle-Kept w x v (
    Ensures->> _ _ λ h. Ensures->> _ _ λ _.
      Ensures->> _ _ λ _.
        Ensures->> _ _ λ _. Ensures->> _ _ λ k. Ensures-ok Keeps (created-Keeps w x b c d v h k))
dispatch-Kept w x Request.destroy_surface attached v =
    settle-Kept w x v (Ensures->>= _ λ s e. Ensures-ok Keeps (destroyed-Keeps w x s v e))
dispatch-Kept w x (Request.ack_configure a) attached v = settle-Kept w x v (
    Ensures->>= _
      λ s e. Ensures->> _ _ λ _. Ensures-ok Keeps (put_surface-IsConsistent x.object s _ v e))
dispatch-Kept w x (Request.import_buffer a b c d e) attached v = settle-Kept w x v (
    Ensures->> _ _ λ h. Ensures->> _ _ λ _. Ensures->> _ _ λ _. Ensures->> _ _ λ _.
      Ensures->> _ _ λ _. Ensures->> _ _ λ _. Ensures->> _ _ λ k. Ensures->> _ _ λ l.
        Ensures-ok Keeps (
          imported-Keeps x.object a b d (Buffers.or_zero attached) v
            (check_fresh-lt w.conn x.object h) (ground (arith, reject-eq-ok _ _ k))
            (ground (arith, reject-eq-ok _ _ l))))
dispatch-Kept w x Request.destroy_buffer attached v =
    settle-Kept w x v
      (Ensures->>= _ λ b e. Ensures->> _ _ λ _. Ensures-ok Keeps (without-Keeps x.object b v e))
dispatch-Kept w x (Request.attach_buffer b rs) attached v = settle-Kept w x v (
    Ensures->>= _ λ s e.
      Ensures-if (b == 0)
        (λ _.
          Ensures->> _ _
            λ _. Ensures->> _ _ λ _. Ensures-ok Keeps (put_surface-IsConsistent x.object s _ v e))
        (λ _. Ensures->>= _ λ u k. Ensures->> _ _ λ _. Ensures->> _ _ λ _.
          Ensures->> _ _
            λ _. Ensures->> _ _ λ _. Ensures-ok Keeps (reserve-Keeps x.object b s u v e k)))
dispatch-Kept w x (Request.commit a b) attached v = settle-Kept w x v (
    Ensures->> _ _ λ _. Ensures->>= _ λ s e. Ensures->> _ _ λ _. Ensures->> _ _ λ _.
      Ensures->> _ _ λ _.
        Ensures-if (s.pending_buffer == 0) (λ _. Ensures-ok Keeps (unmap-Keeps w x s b v e))
          (λ _.
            Ensures->>= _ λ c k. Ensures->> _ _ λ _. Ensures-ok Keeps (map-Keeps w x s c b v e k)))

-- Every request keeps the bookkeeping: the counters of surfaces, buffers and pinned bytes agree with
-- the objects and stay within their limits, and no id above the watermark is in use.
pub dispatch-IsConsistent :
    (w : World) (x : Ctx) (req : Request) (attached : Option ℕ)
    → IsConsistent w.conn
    → IsConsistent (dispatch w x req attached).world.conn
dispatch-IsConsistent w x req attached v = (dispatch-Kept w x req attached v).kept
