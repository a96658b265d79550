-- ===== src/Gui/Server/Follows.antt =====
-- server.rs: what a connection keeps while a request runs: serials, phase and mapped surfaces.
use dunit_os.Prelude.{ℕ, ◌≡◌, refl, ◌∙◌, Bool, true, false, ◌&&◌, none, arith, ◌==◌}
use dunit_os.Prelude.Table.{lookup, insert, remove, lookup-insert, lookup-remove}
use dunit_os.Prelude.Results.{Result, ok, err}
use dunit_os.Gui.Wire.Codes.{ErrorCode}
use dunit_os.Gui.Server.State.{
  Connection, Object, Surface, Buffer, surface_of, buffer_of, put_surface, put_buffer,
  is_active_phase,
}
use dunit_os.Gui.Server.Step.{release_with, release_buffer, released}
use dunit_os.Gui.Server.Inject.{is_mapped_surface}
use dunit_os.Gui.Server.Consistent.{surface_of-eq-ok, buffer_of-eq-ok}

abbrev pub mapped : Connection → ℕ → Bool
mapped c j = is_mapped_surface (surface_of c j)

-- `gone` tells whether the surface `id` is excepted.
pub record Follows (gone : Bool) (id : ℕ) (c c' : Connection) : Type 0 where
  pub last : c'.last_client_serial ≡ c.last_client_serial
  pub next : c'.next_server_serial ≡ c.next_server_serial
  pub phase : is_active_phase c.phase ≡ true → is_active_phase c'.phase ≡ true
  pub mapped : (j : ℕ) → (gone && id == j) ≡ false → mapped c j ≡ true → mapped c' j ≡ true

pub Follows-refl : {gone : Bool} {id : ℕ} (c : Connection) → Follows gone id c c
Follows-refl c = record { last = refl; next = refl; phase = λ h. h; mapped = λ j h k. k }

pub Follows-trans :
    {gone : Bool} {id : ℕ} {a b c : Connection}
    → Follows gone id a b
    → Follows gone id b c
    → Follows gone id a c
Follows-trans f g = record {
  last = g.last ∙ f.last;
  next = g.next ∙ f.next;
  phase = λ h. g.phase (f.phase h);
  mapped = λ j h k. g.mapped j h (f.mapped j h k);
}

-- A surface that is written with its mapped flag kept, or excepted.
pub put_surface-Follows :
    {gone : Bool} {c : Connection} (id : ℕ) (s s' : Surface)
    → surface_of c id ≡ ok s
    → (gone ≡ false → s.mapped ≡ true → s'.mapped ≡ true)
    → Follows gone id c (put_surface id s' c)
unfolding put_surface surface_of
put_surface-Follows {c} id s s' e h = record {
  last = refl;
  next = refl;
  phase = λ k. k;
  mapped = λ j p q.
      ground (arith, lookup-insert id j (Object.surface s') c.objects, surface_of-eq-ok c id e);
}

pub put_buffer-Follows :
    {gone : Bool} {c : Connection} (object id : ℕ) (b b' : Buffer)
    → buffer_of c id ≡ ok b
    → Follows gone object c (put_buffer id b' c)
unfolding put_buffer surface_of
put_buffer-Follows {c} object id b b' e = record {
  last = refl;
  next = refl;
  phase = λ k. k;
  mapped = λ j p q.
      ground (arith, lookup-insert id j (Object.buffer b') c.objects, buffer_of-eq-ok c id e);
}

pub release_buffer-Follows :
    {gone : Bool} {c : Connection} (object id t : ℕ)
    → Follows gone object c (release_buffer id t c).0
unfolding release_buffer
release_buffer-Follows {gone} {c} object id t = go (buffer_of c id) refl
  where
    go :
        (r : Result ErrorCode Buffer)
        → buffer_of c id ≡ r
        → Follows gone object c (release_with id t c r).0
    go (ok b) e = put_buffer-Follows object id b (released b) e
    go (err x) e = Follows-refl c

-- A fresh id enters.
pub add-Follows :
    {c : Connection} (id : ℕ) (o : Object) (surfaces buffers backing : ℕ)
    → lookup id c.objects ≡ none
    → Follows false id c (record c {
      objects = insert id o c.objects;
      id_watermark = id;
      surfaces = surfaces;
      buffers = buffers;
      backing_bytes = backing;
    })
unfolding surface_of
add-Follows {c} id o _ _ _ e = record {
  last = refl;
  next = refl;
  phase = λ k. k;
  mapped = λ j p q. ground (arith, lookup-insert id j o c.objects, e);
}

-- An object leaves: a buffer, or an excepted surface.
pub drop-Follows :
    {gone : Bool} {c : Connection} (id : ℕ) (surfaces buffers backing : ℕ)
    → (gone ≡ false → mapped c id ≡ false)
    → Follows gone id c (record c {
      objects = remove id c.objects;
      surfaces = surfaces;
      buffers = buffers;
      backing_bytes = backing;
    })
unfolding surface_of
drop-Follows {gone} {c} id _ _ _ h = record {
  last = refl;
  next = refl;
  phase = λ k. k;
  mapped = λ j p q. ground (arith, lookup-remove id j c.objects);
}

pub buffer_not_mapped :
    (c : Connection) (id : ℕ) (b : Buffer) → buffer_of c id ≡ ok b → mapped c id ≡ false
unfolding surface_of
buffer_not_mapped c id b e = ground (arith, buffer_of-eq-ok c id e)
