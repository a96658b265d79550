-- ===== src/Gui/Server/Atomic.antt =====
-- server.rs: the state through a request that is answered by an ERROR.
use dunit_os.Prelude.{
  ℕ, ◌≡◌, refl, Bool, true, false, ◌&&◌, List, [], ◌∷◌, ◌++◌, any, Option, arith, ◌!=◌, ◌==◌,
}
use dunit_os.Prelude.Results.{
  Result, ok, err, Ensures, Ensures-ok, Ensures->>=, Ensures->>, Ensures-if,
}
use dunit_os.Gui.Wire.Event.{Event}
use dunit_os.Gui.Wire.Request.{Request}
use dunit_os.Gui.Wire.Codes.{ErrorCode}
use dunit_os.Gui.Server.State.{
  Connection, Surface, Buffer, busy, buffer_of, put_surface, put_buffer,
}
use dunit_os.Gui.Server.Seat.{Seat, leave_events}
use dunit_os.Gui.Server.Step.{World, Ctx, Step, settle, release_with, release_buffer}
use dunit_os.Gui.Server.Dispatch.{dispatch}
use dunit_os.Gui.Server.Dispatch.Session
use dunit_os.Gui.Server.Dispatch.Surfaces
use dunit_os.Gui.Server.Dispatch.Buffers
use dunit_os.Gui.Server.Dispatch.Commit

abbrev pub is_error : ℕ × Event → Bool
is_error (obj, Event.error r c f) = true
is_error _ = false

abbrev pub has_error : List (ℕ × Event) → Bool
has_error = any is_error

has_error-append :
    (xs ys : List (ℕ × Event))
    → has_error xs ≡ false
    → has_error ys ≡ false
    → has_error (xs ++ ys) ≡ false
has_error-append [] ys h k = k
has_error-append (x ∷ xs) ys h k = ground (arith, has_error-append xs ys)

-- An ERROR among the events means that the step has kept the world.
pub record IsAtomic (w : World) (s : Step) : Type 0 where
  pub kept : has_error s.events ≡ true → s.world ≡ w

settle-IsAtomic :
    (w : World) (x : Ctx) {m : Result ErrorCode Step}
    → Ensures m (λ s. has_error s.events ≡ false)
    → IsAtomic w (settle w x m)
unfolding settle
settle-IsAtomic w x {m = ok s} c = record { kept = λ h. cc (c.holds s refl) }
settle-IsAtomic w x {m = err e} c = record { kept = λ h. refl }

release_buffer_clean : (id t : ℕ) (c : Connection) → has_error (release_buffer id t c).1 ≡ false
unfolding release_buffer
release_buffer_clean id t c = go (buffer_of c id)
  where
    go : (r : Result ErrorCode Buffer) → has_error (release_with id t c r).1 ≡ false
    go (ok b) = refl
    go (err e) = refl

leave_events_clean : (t : ℕ × ℕ) (s : Seat) → has_error (leave_events t s) ≡ false
unfolding leave_events
leave_events_clean t s = ground arith

pending_clean : (s : Surface) (c : Connection) → has_error (Surfaces.release_pending s c).1 ≡ false
unfolding Surfaces.release_pending
pending_clean s c = ground (arith, release_buffer_clean s.pending_buffer 0 c)

committed_clean :
    (s : Surface) (c : Connection) → has_error (Surfaces.release_committed s c).1 ≡ false
unfolding Surfaces.release_committed
committed_clean s c = ground (arith, release_buffer_clean s.committed_buffer s.committed_token c)

old_clean :
    (held : Bool) (old token : ℕ) (c : Connection)
    → has_error (Commit.release_old held old token c).1 ≡ false
unfolding Commit.release_old
old_clean held old token c = ground (arith, release_buffer_clean old token c)

destroyed_clean :
    (w : World) (x : Ctx) (s : Surface) → has_error (Surfaces.destroyed w x s).events ≡ false
unfolding Surfaces.destroyed
destroyed_clean w x s = has_error-append (leave_events t w.seat) _ (leave_events_clean t w.seat) (
    has_error-append (Surfaces.release_pending s w.conn).1 _ (pending_clean s w.conn) (
      has_error-append (Surfaces.release_committed s c1).1 _ (committed_clean s c1) (ground arith)))
  where
    t : ℕ × ℕ
    t = (x.conn_id, x.object)

    c1 : Connection
    c1 = (Surfaces.release_pending s w.conn).0

discard_clean : (x : Ctx) (s : Surface) (fc : ℕ) → has_error (Commit.discard_events x s fc) ≡ false
unfolding Commit.discard_events
discard_clean x s fc = ground arith

unmap_clean :
    (w : World) (x : Ctx) (s : Surface) (fc : ℕ)
    → has_error (Commit.commit_unmap w x s fc).events ≡ false
unfolding Commit.commit_unmap
unmap_clean w x s fc =
    let t : ℕ × ℕ = (x.conn_id, x.object) in
    let held = s.committed_buffer != 0 in
    let c = put_surface x.object (Commit.unmapped s) w.conn in
    let (c1, e1) = Commit.release_old held s.committed_buffer s.committed_token c in
    has_error-append (leave_events t w.seat) _ (leave_events_clean t w.seat) (
      has_error-append e1 (Commit.discard_events x s fc)
        (old_clean held s.committed_buffer s.committed_token c) (discard_clean x s fc))

map_clean :
    (w : World) (x : Ctx) (s : Surface) (b : Buffer) (fc : ℕ)
    → has_error (Commit.commit_map w x s b fc).events ≡ false
unfolding Commit.commit_map
map_clean w x s b fc = old_clean held s.committed_buffer s.committed_token c
  where
    held : Bool
    held = s.committed_buffer != 0 && s.committed_buffer != s.pending_buffer

    c : Connection
    c =
        put_surface x.object (Commit.committed s x.serial fc)
          (put_buffer s.pending_buffer (record b { state = busy; commit_token = x.serial }) w.conn)

abbrev Clean : Step → Type 0
Clean s = has_error s.events ≡ false

created_clean :
    (w : World) (x : Ctx) (a b c : ℕ) → has_error (Surfaces.created w x a b c).events ≡ false
unfolding Surfaces.created
created_clean w x a b c = refl

create_surface-IsAtomic :
    (w : World) (x : Ctx) (role width height format : ℕ)
    → IsAtomic w (Surfaces.create_surface w x role width height format)
unfolding Surfaces.create_surface
create_surface-IsAtomic w x role width height format = settle-IsAtomic w x (
    Ensures->> _ _ λ _. Ensures->> _ _ λ _. Ensures->> _ _ λ _.
      Ensures->> _ _
        λ _. Ensures->> _ _ λ _. Ensures-ok Clean (created_clean w x width height format))

arm-IsAtomic :
    (w : World) (x : Ctx) (req : Request) (attached : Option ℕ)
    → IsAtomic w (dispatch w x req attached)
unfolding dispatch Session.hello Session.disconnect Session.set_title Session.set_app_id
    Surfaces.create_surface Surfaces.destroy_surface Surfaces.ack_configure Buffers.import_buffer
    Buffers.destroy_buffer Buffers.attach_buffer Commit.commit
arm-IsAtomic w x (Request.hello a b c d) attached = record { kept = λ h. ground arith }
arm-IsAtomic w x Request.disconnect attached = record { kept = λ h. refl }
arm-IsAtomic w x (Request.set_title s) attached =
    settle-IsAtomic w x (Ensures->> _ _ λ _. Ensures->> _ _ λ _. Ensures-ok Clean refl)
arm-IsAtomic w x (Request.set_app_id s) attached =
    settle-IsAtomic w x (Ensures->> _ _ λ _. Ensures->> _ _ λ _. Ensures-ok Clean refl)
arm-IsAtomic w x (Request.create_surface a b c d) attached = create_surface-IsAtomic w x a b c d
arm-IsAtomic w x Request.destroy_surface attached =
    settle-IsAtomic w x (Ensures->>= _ λ s _. Ensures-ok Clean (destroyed_clean w x s))
arm-IsAtomic w x (Request.ack_configure a) attached =
    settle-IsAtomic w x (Ensures->>= _ λ _ _. Ensures->> _ _ λ _. Ensures-ok Clean refl)
arm-IsAtomic w x (Request.import_buffer a b c d e) attached = settle-IsAtomic w x (
    Ensures->> _ _ λ _. Ensures->> _ _ λ _. Ensures->> _ _ λ _. Ensures->> _ _ λ _.
      Ensures->> _ _
        λ _. Ensures->> _ _ λ _. Ensures->> _ _ λ _. Ensures->> _ _ λ _. Ensures-ok Clean refl)
arm-IsAtomic w x Request.destroy_buffer attached =
    settle-IsAtomic w x (Ensures->>= _ λ _ _. Ensures->> _ _ λ _. Ensures-ok Clean refl)
arm-IsAtomic w x (Request.attach_buffer b rs) attached = settle-IsAtomic w x (
    Ensures->>= _ λ s _.
      Ensures-if (b == 0) (λ _. Ensures->> _ _ λ _. Ensures->> _ _ λ _. Ensures-ok Clean refl)
        (λ _. Ensures->>= _ λ _ _.
          Ensures->> _ _
            λ _. Ensures->> _ _ λ _. Ensures->> _ _ λ _. Ensures->> _ _ λ _. Ensures-ok Clean refl))
arm-IsAtomic w x (Request.commit a b) attached = settle-IsAtomic w x (
    Ensures->> _ _ λ _. Ensures->>= _ λ s _. Ensures->> _ _ λ _. Ensures->> _ _ λ _.
      Ensures->> _ _ λ _.
        Ensures-if (s.pending_buffer == 0) (λ _. Ensures-ok Clean (unmap_clean w x s b))
          (λ _. Ensures->>= _ λ c _. Ensures->> _ _ λ _. Ensures-ok Clean (map_clean w x s c b)))

-- The dispatch of a request whose reply holds an ERROR leaves the connection, the client ids and the seat that it was
-- given as they were. Consuming serials and closing the connection on a fatal error are stages around the dispatch.
pub dispatch_atomic :
    (w : World) (x : Ctx) (req : Request) (attached : Option ℕ)
    → has_error (dispatch w x req attached).events ≡ true
    → (dispatch w x req attached).world ≡ w
dispatch_atomic w x req attached h = (arm-IsAtomic w x req attached).kept h
