-- ===== src/Gui/Server/Consistent.antt =====
-- server.rs: the bookkeeping of a connection: counters, limits and the watermark of ids.
use dunit_os.Prelude.{ℕ, ◌+◌, ◌-◌, ◌≤◌, ◌<◌, ◌≡◌, refl, Option, none, some, arith}
use dunit_os.Prelude.Table.{
  lookup, insert, remove, total, IsSorted, lookup-insert, lookup-remove, insert-IsSorted,
  remove-IsSorted, total-insert, total-replace, total-remove,
}
use dunit_os.Prelude.Results.{Result, ok, err}
use dunit_os.Gui.Wire.Codes.{ErrorCode}
use dunit_os.Gui.Server.State.{
  Connection, Object, Surface, Buffer, surface_of, buffer_of, as_surface, as_buffer, put_surface,
  put_buffer, max_surfaces, max_buffers, max_backing_bytes_conn, new_connection,
}
use dunit_os.Gui.Server.Step.{released, release_with, release_buffer}

-- What an object adds to each counter.
abbrev pub surface_weight : Object → ℕ
surface_weight (Object.surface s) = 1
surface_weight (Object.buffer b) = 0

abbrev pub buffer_weight : Object → ℕ
buffer_weight (Object.surface s) = 0
buffer_weight (Object.buffer b) = 1

abbrev pub backing_weight : Object → ℕ
backing_weight (Object.surface s) = 0
backing_weight (Object.buffer b) = b.backing

pub record IsConsistent (c : Connection) : Type 0 where
  pub sorted : IsSorted c.objects
  pub surface_count : total surface_weight c.objects ≡ c.surfaces
  pub buffer_count : total buffer_weight c.objects ≡ c.buffers
  pub backing_count : total backing_weight c.objects ≡ c.backing_bytes
  pub surfaces_max : c.surfaces ≤ max_surfaces
  pub buffers_max : c.buffers ≤ max_buffers
  pub backing_max : c.backing_bytes ≤ max_backing_bytes_conn
  pub unused : (id : ℕ) → c.id_watermark < id → lookup id c.objects ≡ none

pub surface_of-eq-ok :
    (c : Connection) (id : ℕ) {s : Surface}
    → surface_of c id ≡ ok s
    → lookup id c.objects ≡ some (Object.surface s)
unfolding surface_of
surface_of-eq-ok c id {s} e = go (lookup id c.objects) refl e
  where
    go :
        (o : Option Object)
        → lookup id c.objects ≡ o
        → as_surface o ≡ ok s
        → lookup id c.objects ≡ some (Object.surface s)
    go none p q = cc
    go (some (Object.surface t)) p q = cc
    go (some (Object.buffer b)) p q = cc

pub buffer_of-eq-ok :
    (c : Connection) (id : ℕ) {b : Buffer}
    → buffer_of c id ≡ ok b
    → lookup id c.objects ≡ some (Object.buffer b)
unfolding buffer_of
buffer_of-eq-ok c id {b} e = go (lookup id c.objects) refl e
  where
    go :
        (o : Option Object)
        → lookup id c.objects ≡ o
        → as_buffer o ≡ ok b
        → lookup id c.objects ≡ some (Object.buffer b)
    go none p q = cc
    go (some (Object.surface t)) p q = cc
    go (some (Object.buffer b')) p q = cc

-- A present object is exchanged for one of the same weights.
replace-IsConsistent :
    {c : Connection} (id : ℕ) (o o' : Object)
    → IsConsistent c
    → lookup id c.objects ≡ some o
    → surface_weight o ≡ surface_weight o'
    → buffer_weight o ≡ buffer_weight o'
    → backing_weight o ≡ backing_weight o'
    → IsConsistent (record c { objects = insert id o' c.objects })
replace-IsConsistent {c} id o o' v e h1 h2 h3 = record {
  sorted = insert-IsSorted id o' c.objects v.sorted;
  surface_count =
      omega (arith, total-replace surface_weight 0 id o o' c.objects v.sorted e, v.surface_count);
  buffer_count =
      omega (arith, total-replace buffer_weight 0 id o o' c.objects v.sorted e, v.buffer_count);
  backing_count =
      omega (arith, total-replace backing_weight 0 id o o' c.objects v.sorted e, v.backing_count);
  surfaces_max = v.surfaces_max;
  buffers_max = v.buffers_max;
  backing_max = v.backing_max;
  unused = λ j h. ground (arith, lookup-insert id j o' c.objects, v.unused j h, e);
}

pub put_surface-IsConsistent :
    {c : Connection} (id : ℕ) (s s' : Surface)
    → IsConsistent c
    → surface_of c id ≡ ok s
    → IsConsistent (put_surface id s' c)
unfolding put_surface
put_surface-IsConsistent {c} id s s' v e =
    replace-IsConsistent id (Object.surface s) (Object.surface s') v (surface_of-eq-ok c id e) refl
      refl refl

pub put_buffer-IsConsistent :
    {c : Connection} (id : ℕ) (b b' : Buffer)
    → IsConsistent c
    → buffer_of c id ≡ ok b
    → b.backing ≡ b'.backing
    → IsConsistent (put_buffer id b' c)
unfolding put_buffer
put_buffer-IsConsistent {c} id b b' v e h =
    replace-IsConsistent id (Object.buffer b) (Object.buffer b') v (buffer_of-eq-ok c id e) refl
      refl h

pub release_buffer-IsConsistent :
    {c : Connection} (id t : ℕ) → IsConsistent c → IsConsistent (release_buffer id t c).0
unfolding release_buffer
release_buffer-IsConsistent {c} id t v = go (buffer_of c id) refl
  where
    go : (r : Result ErrorCode Buffer) → buffer_of c id ≡ r → IsConsistent (release_with id t c r).0
    go (ok b) e = put_buffer-IsConsistent id b _ v e refl
    go (err x) e = v

-- A fresh id enters with its weights, and becomes the watermark.
pub add-IsConsistent :
    {c : Connection} (id : ℕ) (o : Object) (surfaces buffers backing : ℕ)
    → IsConsistent c
    → c.id_watermark < id
    → (surfaces ≡ c.surfaces + surface_weight o) × (surfaces ≤ max_surfaces)
    → (buffers ≡ c.buffers + buffer_weight o) × (buffers ≤ max_buffers)
    → (backing ≡ c.backing_bytes + backing_weight o) × (backing ≤ max_backing_bytes_conn)
    → IsConsistent (record c {
      objects = insert id o c.objects;
      id_watermark = id;
      surfaces = surfaces;
      buffers = buffers;
      backing_bytes = backing;
    })
add-IsConsistent {c} id o _ _ _ v h h1 h2 h3 =
    let absent : lookup id c.objects ≡ none = v.unused id h in
    record {
      sorted = insert-IsSorted id o c.objects v.sorted;
      surface_count =
          omega
            (arith, total-insert surface_weight 0 id o c.objects v.sorted absent, v.surface_count);
      buffer_count =
          omega
            (arith, total-insert buffer_weight 0 id o c.objects v.sorted absent, v.buffer_count);
      backing_count =
          omega
            (arith, total-insert backing_weight 0 id o c.objects v.sorted absent, v.backing_count);
      surfaces_max = h1.1;
      buffers_max = h2.1;
      backing_max = h3.1;
      unused = λ j k. ground (arith, lookup-insert id j o c.objects, v.unused j (omega arith));
    }

-- A present object leaves, and its weights are taken off the counters.
pub drop-IsConsistent :
    {c : Connection} (id : ℕ) (o : Object) (surfaces buffers backing : ℕ)
    → IsConsistent c
    → lookup id c.objects ≡ some o
    → surfaces ≡ c.surfaces - surface_weight o
    → buffers ≡ c.buffers - buffer_weight o
    → backing ≡ c.backing_bytes - backing_weight o
    → IsConsistent (record c {
      objects = remove id c.objects;
      surfaces = surfaces;
      buffers = buffers;
      backing_bytes = backing;
    })
drop-IsConsistent {c} id o _ _ _ v e h1 h2 h3 = record {
  sorted = remove-IsSorted id c.objects v.sorted;
  surface_count =
      omega (arith, total-remove surface_weight 0 id o c.objects v.sorted e, v.surface_count);
  buffer_count =
      omega (arith, total-remove buffer_weight 0 id o c.objects v.sorted e, v.buffer_count);
  backing_count =
      omega (arith, total-remove backing_weight 0 id o c.objects v.sorted e, v.backing_count);
  surfaces_max = omega (arith, v.surfaces_max);
  buffers_max = omega (arith, v.buffers_max);
  backing_max = omega (arith, v.backing_max);
  unused = λ j h. ground (arith, lookup-remove id j c.objects, v.unused j h);
}

-- A write to a buffer does not touch surfaces, and neither does a release.
pub surface_of-put_buffer :
    (c : Connection) (j id : ℕ) (s : Surface) (b b' : Buffer)
    → surface_of c j ≡ ok s
    → buffer_of c id ≡ ok b
    → surface_of (put_buffer id b' c) j ≡ ok s
unfolding surface_of put_buffer
surface_of-put_buffer c j id s b b' hs hb = ground (
  arith,
  lookup-insert id j (Object.buffer b') c.objects,
  surface_of-eq-ok c j hs,
  buffer_of-eq-ok c id hb,
)

pub surface_of-release_buffer :
    (c : Connection) (id t j : ℕ) {s : Surface}
    → surface_of c j ≡ ok s
    → surface_of (release_buffer id t c).0 j ≡ ok s
unfolding release_buffer
surface_of-release_buffer c id t j {s} e = go (buffer_of c id) refl
  where
    go :
        (r : Result ErrorCode Buffer)
        → buffer_of c id ≡ r
        → surface_of (release_with id t c r).0 j ≡ ok s
    go (err x) p = e
    go (ok b) p = surface_of-put_buffer c j id s b (released b) e p

pub new-IsConsistent : (now : ℕ) → IsConsistent (new_connection now)
unfolding total lookup
new-IsConsistent now = record {
  sorted = tt;
  surface_count = refl;
  buffer_count = refl;
  backing_count = refl;
  surfaces_max = omega arith;
  buffers_max = omega arith;
  backing_max = omega arith;
  unused = λ j h. refl;
}
