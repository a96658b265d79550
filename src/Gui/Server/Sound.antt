-- ===== src/Gui/Server/Sound.antt =====
-- server.rs: what makes a server sound: its connections, and the surfaces that the seat names.
pub mod Requests
pub mod Quiet
pub mod Events
use dunit_os.Prelude.{
  ℕ, ◌+◌, ◌≡◌, ◌≤◌, ◌<◌, ◌⊎◌, inl, inr, subst, true, false, ◌&&◌, none, some, arith, ◌==◌,
}
use dunit_os.Prelude.Table.{
  Table, lookup, insert, remove, size, IsSorted, lookup-insert, lookup-remove, insert-IsSorted,
  remove-IsSorted, size-insert-le, size-remove-le, size-replace, lookup-insert-eq-some,
}
use dunit_os.Gui.Server.State.{Connection, Target, max_connections, new_connection}
use dunit_os.Gui.Server.Seat.{Seat, drop_conn, drop_surface}
use dunit_os.Gui.Server.Pipeline.{Server}
use dunit_os.Gui.Server.Inject.{shows}
use dunit_os.Gui.Server.Consistent.{IsConsistent, new-IsConsistent}

-- The seat names a surface: as the pointer's or the keyboard's focus, or as the grab.
abbrev pub Bound : Target → Seat → Type 0
Bound t s = (s.pointer_focus ≡ some t) ⊎ (s.keyboard_focus ≡ some t) ⊎ (s.grab ≡ some t)

pub record IsSound (next : ℕ) (conns : Table Connection) (seat : Seat) : Type 0 where
  pub sorted : IsSorted conns
  pub count : size conns ≤ max_connections
  pub unused : (id : ℕ) → next ≤ id → lookup id conns ≡ none
  pub consistent : (id : ℕ) (c : Connection) → lookup id conns ≡ some c → IsConsistent c
  pub focus : (t : Target) → Bound t seat → shows (lookup t.0 conns) t.1 ≡ true

abbrev pub Sound : Server → Type 0
Sound srv = IsSound srv.next_conn srv.conns srv.seat

pub Bound-drop_conn :
    (t : Target) (conn : ℕ) (s : Seat)
    → Bound t (drop_conn conn s)
    → Bound t s × ((t.0 == conn) ≡ false)
unfolding drop_conn
Bound-drop_conn t conn s h = ground arith

pub Bound-drop_surface :
    (t u : Target) (s : Seat)
    → Bound t (drop_surface u s)
    → Bound t s × ((t.0 == u.0 && t.1 == u.1) ≡ false)
unfolding drop_surface
Bound-drop_surface t u s h = ground arith

-- A connection is written: it keeps its bookkeeping, and shows what the seat still names of it.
pub write-IsSound :
    {next : ℕ} {conns : Table Connection} {seat seat' : Seat} (conn : ℕ) (c c' : Connection)
    → IsSound next conns seat
    → lookup conn conns ≡ some c
    → IsConsistent c'
    → ((t : Target)
        → Bound t seat'
        → Bound t seat × ((t.0 == conn) ≡ true → shows (some c') t.1 ≡ true))
    → IsSound next (insert conn c' conns) seat'
write-IsSound {next} {conns} conn c c' v e h f = record {
  sorted = insert-IsSorted conn c' conns v.sorted;
  count = omega (arith, size-replace conn c c' conns v.sorted e, v.count);
  unused = λ id k. ground (arith, lookup-insert conn id c' conns, v.unused id k, e);
  consistent = λ id d k. elim (lookup-insert-eq-some conn id c' conns k) [
    | inl p ↦ subst IsConsistent p h
    | inr p ↦ v.consistent id d p
  ];
  focus = λ t b.
      let (b', g) = f t b in
      let old = v.focus t b' in ground (arith, lookup-insert conn t.0 c' conns);
}

-- A connection goes, and the seat names none of its surfaces.
pub remove-IsSound :
    {next : ℕ} {conns : Table Connection} {seat : Seat} (conn : ℕ)
    → IsSound next conns seat
    → IsSound next (remove conn conns) (drop_conn conn seat)
remove-IsSound {next} {conns} {seat} conn v = record {
  sorted = remove-IsSorted conn conns v.sorted;
  count = omega (arith, size-remove-le conn conns, v.count);
  unused = λ id k. ground (arith, lookup-remove conn id conns, v.unused id k);
  consistent = λ id d k. v.consistent id d (ground (arith, lookup-remove conn id conns));
  focus = λ t b.
      let (b', ne) = Bound-drop_conn t conn seat b in
      let old = v.focus t b' in ground (arith, lookup-remove conn t.0 conns);
}

pub connect-IsSound :
    {next : ℕ} {conns : Table Connection} {seat : Seat} (now_ns : ℕ)
    → IsSound next conns seat
    → size conns < max_connections
    → IsSound (next + 1) (insert next (new_connection now_ns) conns) seat
connect-IsSound {next} {conns} {seat} now_ns v h = record {
  sorted = insert-IsSorted next _ conns v.sorted;
  count = omega (arith, size-insert-le next (new_connection now_ns) conns);
  unused = λ id k.
      ground
        (arith, lookup-insert next id (new_connection now_ns) conns, v.unused id (omega arith));
  consistent = λ id d k. elim (lookup-insert-eq-some next id (new_connection now_ns) conns k) [
    | inl p ↦ subst IsConsistent p (new-IsConsistent now_ns)
    | inr p ↦ v.consistent id d p
  ];
  focus = λ t b.
      let old = v.focus t b in
      ground
        (arith, lookup-insert next t.0 (new_connection now_ns) conns, v.unused next (omega arith));
}
