-- ===== src/Gui/Server/Progress.antt =====
-- server.rs: what every request keeps of its connection and of the seat.
use dunit_os.Prelude.{
  List, ℕ, ◌≡◌, refl, Bool, true, false, Option, arith, if◌then◌else◌, ◌==◌, ◌!=◌, ltb, ◌||◌,
  bit_and,
}
use dunit_os.Prelude.Results.{
  Result, ok, err, Ensures, Ensures-ok, Ensures->>=, Ensures->>, Ensures-if,
}
use dunit_os.Gui.Wire.Codes.{ErrorCode, version_minor, feature_argb8888}
use dunit_os.Gui.Wire.Event.{Event}
use dunit_os.Gui.Wire.Request.{Request}
use dunit_os.Gui.Server.State.{
  Connection, Surface, Buffer, surface_of, buffer_of, put_surface, put_buffer, check_fresh,
}
use dunit_os.Gui.Server.Seat.{drop_surface}
use dunit_os.Gui.Server.Step.{World, Ctx, Step, settle}
use dunit_os.Gui.Server.Dispatch.{dispatch}
use dunit_os.Gui.Server.Dispatch.Session
use dunit_os.Gui.Server.Dispatch.Surfaces
use dunit_os.Gui.Server.Dispatch.Buffers
use dunit_os.Gui.Server.Dispatch.Commit
use dunit_os.Gui.Server.Consistent.{IsConsistent, surface_of-put_buffer}
use dunit_os.Gui.Server.Bookkeeping.{check_fresh-lt}
use dunit_os.Gui.Server.Follows.{
  Follows, Follows-refl, Follows-trans, put_surface-Follows, put_buffer-Follows,
  release_buffer-Follows, add-Follows, drop-Follows, buffer_not_mapped,
}

-- The seat is kept, or forgets the surface that the request is about: only that one may be unmapped.
pub record Advances (w : World) (x : Ctx) (s : Step) : Type 0 where
  pub gone : Bool
  pub conn : Follows gone x.object w.conn s.world.conn
  pub seat : s.world.seat ≡ (if gone then drop_surface (x.conn_id, x.object) w.seat else w.seat)

-- The seat stays as it is.
pub keep-Advances :
    {w : World} {x : Ctx} {c : Connection} {n : ℕ} {evs : List (ℕ × Event)} {close : Bool}
    → Follows false x.object w.conn c
    → Advances w x (record {
      world = record { conn = c; ncid = n; seat = w.seat };
      events = evs;
      close = close;
    })
keep-Advances f = record { gone = false; conn = f; seat = refl }

settle-Advances :
    (w : World) (x : Ctx) {m : Result ErrorCode Step}
    → Ensures m (Advances w x)
    → Advances w x (settle w x m)
unfolding settle
settle-Advances w x {m = ok s} h = h.holds s refl
settle-Advances w x {m = err e} h = keep-Advances (Follows-refl w.conn)

if-Advances :
    {w : World} {x : Ctx} (b : Bool) {s t : Step}
    → Advances w x s
    → Advances w x t
    → Advances w x (if b then s else t)
if-Advances true h k = h
if-Advances false h k = k

welcome-Advances : (w : World) (x : Ctx) (f : ℕ) → Advances w x (Session.welcome w x f)
unfolding Session.welcome surface_of
welcome-Advances w x f = record {
  gone = false;
  conn = record { last = refl; next = refl; phase = λ h. refl; mapped = λ j h k. k };
  seat = refl;
}

created-Advances :
    (w : World) (x : Ctx) (width height format : ℕ)
    → IsConsistent w.conn
    → check_fresh w.conn x.object ≡ ok tt
    → Advances w x (Surfaces.created w x width height format)
unfolding Surfaces.created put_surface
created-Advances w x width height format v h =
    keep-Advances
      (add-Follows x.object _ _ _ _ (v.unused x.object (check_fresh-lt w.conn x.object h)))

imported-Follows :
    {c : Connection} (object width height format size : ℕ)
    → IsConsistent c
    → check_fresh c object ≡ ok tt
    → Follows false object c (Buffers.imported c object width height format size)
unfolding Buffers.imported put_buffer
imported-Follows {c} object width height format size v h =
    add-Follows object _ _ _ _ (v.unused object (check_fresh-lt c object h))

release_pending-Follows :
    {gone : Bool} {c : Connection} (id : ℕ) (s : Surface)
    → Follows gone id c (Surfaces.release_pending s c).0
unfolding Surfaces.release_pending
release_pending-Follows {gone} {c} id s = ground (
  arith,
  release_buffer-Follows {gone = gone} {c = c} id s.pending_buffer 0,
  Follows-refl {gone = gone} {id = id} c,
)

release_committed-Follows :
    {gone : Bool} {c : Connection} (id : ℕ) (s : Surface)
    → Follows gone id c (Surfaces.release_committed s c).0
unfolding Surfaces.release_committed
release_committed-Follows {gone} {c} id s = ground (
  arith,
  release_buffer-Follows {gone = gone} {c = c} id s.committed_buffer s.committed_token,
  Follows-refl {gone = gone} {id = id} c,
)

release_old-Follows :
    {gone : Bool} {c : Connection} (id : ℕ) (held : Bool) (old t : ℕ)
    → Follows gone id c (Commit.release_old held old t c).0
unfolding Commit.release_old
release_old-Follows {c = c} id true old t = release_buffer-Follows id old t
release_old-Follows {c = c} id false old t = Follows-refl c

destroyed-Advances : (w : World) (x : Ctx) (s : Surface) → Advances w x (Surfaces.destroyed w x s)
unfolding Surfaces.destroyed
destroyed-Advances w x s =
    let (c1, e1) = Surfaces.release_pending s w.conn in
    record {
      gone = true;
      conn = Follows-trans (release_pending-Follows x.object s) (
          Follows-trans (release_committed-Follows x.object s)
            (drop-Follows x.object _ _ _ λ h. absurd (cc)));
      seat = refl;
    }

unmap-Advances :
    (w : World) (x : Ctx) (s : Surface) (fc : ℕ)
    → surface_of w.conn x.object ≡ ok s
    → Advances w x (Commit.commit_unmap w x s fc)
unfolding Commit.commit_unmap
unmap-Advances w x s fc e = record {
  gone = true;
  conn =
      Follows-trans {gone = true} (put_surface-Follows x.object s _ e λ h. absurd (cc))
        (release_old-Follows x.object _ s.committed_buffer s.committed_token);
  seat = refl;
}

map-Advances :
    (w : World) (x : Ctx) (s : Surface) (b : Buffer) (fc : ℕ)
    → surface_of w.conn x.object ≡ ok s
    → buffer_of w.conn s.pending_buffer ≡ ok b
    → Advances w x (Commit.commit_map w x s b fc)
unfolding Commit.commit_map
map-Advances w x s b fc hs hb = keep-Advances (
    Follows-trans
      (Follows-trans (put_buffer-Follows x.object s.pending_buffer b (Commit.in_use b x.serial) hb)
        (put_surface-Follows x.object s _
          (surface_of-put_buffer w.conn x.object s.pending_buffer s b _ hs hb) λ h k. refl))
      (release_old-Follows x.object _ s.committed_buffer s.committed_token))

reserve-Follows :
    {c : Connection} (object buffer : ℕ) (s : Surface) (b : Buffer)
    → surface_of c object ≡ ok s
    → buffer_of c buffer ≡ ok b
    → Follows false object c
        (put_surface object (Buffers.reserve s buffer) (put_buffer buffer (Buffers.reserved b) c))
reserve-Follows {c} object buffer s b hs hb =
    Follows-trans (put_buffer-Follows object buffer b (Buffers.reserved b) hb)
      (put_surface-Follows object s _ (surface_of-put_buffer c object buffer s b _ hs hb) λ h k. k)

without-Follows :
    {c : Connection} (object : ℕ) (b : Buffer)
    → buffer_of c object ≡ ok b
    → Follows false object c (Buffers.without c object b)
unfolding Buffers.without
without-Follows {c} object b e = drop-Follows object _ _ _ λ h. buffer_not_mapped c object b e

pub dispatch-Advances :
    (w : World) (x : Ctx) (req : Request) (attached : Option ℕ)
    → IsConsistent w.conn
    → Advances w x (dispatch w x req attached)
unfolding dispatch Session.hello Session.disconnect Session.set_title Session.set_app_id
    Surfaces.create_surface Surfaces.destroy_surface Surfaces.ack_configure Buffers.import_buffer
    Buffers.destroy_buffer Buffers.attach_buffer Commit.commit
dispatch-Advances w x (Request.hello a b c d) attached v =
    if-Advances (ltb b a || ltb version_minor a) (keep-Advances (Follows-refl w.conn)) (
      if-Advances (bit_and d (Session.complement64 c) != 0) (keep-Advances (Follows-refl w.conn)) (
        if-Advances (bit_and d (Session.complement64 feature_argb8888) != 0)
          (keep-Advances (Follows-refl w.conn))
          (welcome-Advances w x (bit_and c feature_argb8888))))
dispatch-Advances w x Request.disconnect attached v = keep-Advances (Follows-refl w.conn)
dispatch-Advances w x (Request.set_title s) attached v = settle-Advances w x (
    Ensures->> _ _
      λ _. Ensures->> _ _ λ _. Ensures-ok (Advances w x) (keep-Advances (Follows-refl w.conn)))
dispatch-Advances w x (Request.set_app_id s) attached v = settle-Advances w x (
    Ensures->> _ _
      λ _. Ensures->> _ _ λ _. Ensures-ok (Advances w x) (keep-Advances (Follows-refl w.conn)))
dispatch-Advances w x (Request.create_surface a b c d) attached v = settle-Advances w x (
    Ensures->> _ _ λ h. Ensures->> _ _ λ _. Ensures->> _ _ λ _.
      Ensures->> _ _
        λ _. Ensures->> _ _ λ k. Ensures-ok (Advances w x) (created-Advances w x b c d v h))
dispatch-Advances w x Request.destroy_surface attached v =
    settle-Advances w x (Ensures->>= _ λ s e. Ensures-ok (Advances w x) (destroyed-Advances w x s))
dispatch-Advances w x (Request.ack_configure a) attached v = settle-Advances w x (
    Ensures->>= _ λ s e.
      Ensures->> _ _ λ _.
        Ensures-ok (Advances w x) (keep-Advances (put_surface-Follows x.object s _ e λ h k. k)))
dispatch-Advances w x (Request.import_buffer a b c d e) attached v = settle-Advances w x (
    Ensures->> _ _ λ h. Ensures->> _ _ λ _. Ensures->> _ _ λ _. Ensures->> _ _ λ _.
      Ensures->> _ _ λ _. Ensures->> _ _ λ _. Ensures->> _ _ λ k. Ensures->> _ _ λ l.
        Ensures-ok (Advances w x)
          (keep-Advances (imported-Follows x.object a b d (Buffers.or_zero attached) v h)))
dispatch-Advances w x Request.destroy_buffer attached v = settle-Advances w x (
    Ensures->>= _ λ b e.
      Ensures->> _ _ λ _. Ensures-ok (Advances w x) (keep-Advances (without-Follows x.object b e)))
dispatch-Advances w x (Request.attach_buffer b rs) attached v = settle-Advances w x (
    Ensures->>= _ λ s e.
      Ensures-if (b == 0)
        (λ _. Ensures->> _ _ λ _. Ensures->> _ _ λ _.
          Ensures-ok (Advances w x) (keep-Advances (put_surface-Follows x.object s _ e λ h k. k)))
        (λ _. Ensures->>= _ λ u k. Ensures->> _ _ λ _. Ensures->> _ _ λ _. Ensures->> _ _ λ _.
          Ensures->> _ _
            λ _. Ensures-ok (Advances w x) (keep-Advances (reserve-Follows x.object b s u e k))))
dispatch-Advances w x (Request.commit a b) attached v = settle-Advances w x (
    Ensures->> _ _ λ _. Ensures->>= _ λ s e. Ensures->> _ _ λ _. Ensures->> _ _ λ _.
      Ensures->> _ _ λ _.
        Ensures-if (s.pending_buffer == 0)
          (λ _. Ensures-ok (Advances w x) (unmap-Advances w x s b e))
          (λ _.
            Ensures->>= _
              λ c k. Ensures->> _ _ λ _. Ensures-ok (Advances w x) (map-Advances w x s c b e k)))
