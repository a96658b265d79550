-- ===== src/Kernel/Pty.antt =====
-- kernel/src/pty/mod.rs: pseudo-terminals, with the line discipline between a master and its slave.
-- Which processes exist is the process table's state, and is given by `process_exists`.
pub mod Slave
pub mod Editor
pub mod Line
pub mod Typing
pub mod Calls
pub mod Bounds
pub mod Private
mod Examples
use dunit_os.Prelude.{
  ℕ, zero, suc, ◌+◌, ◌-◌, ◌*◌, ◌%◌, ◌^◌, min, bit_and, Bool, true, false, not, ◌&&◌, ◌||◌, List, [],
  ◌∷◌, ◌++◌, length, take, drop, replicate, set, get_or, is_empty, Option, none, some, ◌==◌, ◌!=◌,
  if◌then◌else◌,
}
use dunit_os.Prelude.Table.{Table, lookup, insert, remove, filter, find_key}

abbrev pub pty_ring_cap : ℕ
pty_ring_cap = 8192

abbrev pub termios_size : ℕ
termios_size = 60

abbrev pub c_lflag_off : ℕ
c_lflag_off = 12

abbrev pub c_cc_off : ℕ
c_cc_off = 17

abbrev pub icanon : ℕ
icanon = 2

abbrev pub echo_flag : ℕ
echo_flag = 8

abbrev pub verase : ℕ
verase = 2

abbrev pub vmin : ℕ
vmin = 6

pub data SlaveRead : Type 0 where
  data_read : ℕ → SlaveRead
  would_block : SlaveRead
  eof : SlaveRead

pub record Pty : Type 0 where
  pub master : ℕ
  pub slave : Option ℕ
  pub to_slave : List ℕ
  pub to_master : List ℕ
  pub termios : List ℕ
  pub canon : List ℕ

-- The table and `NEXT_PTY_ID`.
pub record Ptys : Type 0 where
  pub table : Table Pty
  pub next_id : ℕ

unfoldable pub raw_termios : List ℕ
raw_termios = set (set (replicate termios_size 0) (c_cc_off + verase) 0x7f) (c_cc_off + vmin) 1

unfoldable pub termios_lflag : List ℕ → ℕ
termios_lflag t =
    get_or t c_lflag_off 0
    + 0x100 * get_or t (c_lflag_off + 1) 0
    + 0x10000 * get_or t (c_lflag_off + 2) 0
    + 0x1000000 * get_or t (c_lflag_off + 3) 0

abbrev pub is_canonical : Pty → Bool
is_canonical p = bit_and (termios_lflag p.termios) icanon != 0

abbrev pub is_echo : Pty → Bool
is_echo p = bit_and (termios_lflag p.termios) echo_flag != 0

abbrev pub erase_of : Pty → ℕ
erase_of p = get_or p.termios (c_cc_off + verase) 0

-- The ring after, of `ring_push`; it tells how many bytes fitted.
abbrev pub pushed : List ℕ → List ℕ → ℕ
pushed ring bytes = min (pty_ring_cap - length ring) (length bytes)

unfoldable pub ring_push : List ℕ → List ℕ → List ℕ
ring_push ring bytes = ring ++ take (pushed ring bytes) bytes

-- `ring_pop`, into a slice of length `len`: the ring after, and the bytes.
unfoldable pub ring_pop : (len : ℕ) → List ℕ → List ℕ × List ℕ
ring_pop len ring = let n : ℕ = min (length ring) len in (drop n ring, take n ring)

abbrev pub is_pid : Option ℕ → ℕ → Bool
is_pid none pid = false
is_pid (some s) pid = s == pid

unfoldable pub find_by_slave : ℕ → Ptys → Option ℕ
find_by_slave pid t = find_key (λ p. is_pid p.slave pid) t.table

unfoldable pub new_pty : ℕ → Pty
unfolding raw_termios
new_pty master = record {
  master = master;
  slave = none;
  to_slave = [];
  to_master = [];
  termios = raw_termios;
  canon = [];
}

-- `fetch_add` on a 64-bit counter, cut to 32 bits.
unfoldable pub create : ℕ → Ptys → Ptys × ℕ
unfolding new_pty
create master t =
    let id : ℕ = t.next_id % 2 ^ 32 in
    (record { table = insert id (new_pty master) t.table; next_id = (t.next_id + 1) % 2 ^ 64 }, id)

abbrev pub put : ℕ → Pty → Ptys → Ptys
put id p t = record t { table = insert id p t.table }

abbrev pub attach_found : ℕ → (master slave : ℕ) → Ptys → Option Pty → Ptys × Bool
attach_found id master slave t none = (t, false)
attach_found id master slave t (some p) =
    if p.master == master then (put id (record p { slave = some slave }) t, true) else (t, false)

unfoldable pub attach_slave : ℕ → (master slave : ℕ) → Ptys → Ptys × Bool
attach_slave id master slave t = attach_found id master slave t (lookup id t.table)

abbrev pub pop_back : List ℕ → List ℕ
pop_back [] = []
pop_back (x ∷ []) = []
pop_back (x ∷ y ∷ ys) = x ∷ pop_back (y ∷ ys)

abbrev pub newline : ℕ
newline = b'\n'

-- One byte from the master, under the line discipline.
abbrev pub echoed : Bool → List ℕ → Pty → Pty
echoed echo bytes p = if echo then record p { to_master = ring_push p.to_master bytes } else p

abbrev pub erased : Bool → Pty → Pty
erased echo p =
    if is_empty p.canon
    then p
    else echoed echo (0x08 ∷ b' ' ∷ 0x08 ∷ []) (record p { canon = pop_back p.canon })

abbrev pub flushed : Pty → Pty
flushed p = record p { canon = []; to_slave = ring_push p.to_slave p.canon }

abbrev pub collected : Bool → ℕ → Pty → Pty
collected echo b p =
    let p1 = echoed echo (b ∷ []) (record p { canon = p.canon ++ (b ∷ []) }) in
    if b == newline then flushed p1 else p1

unfoldable pub type_byte : (canonical echo : Bool) → (erase b : ℕ) → Pty → Pty
unfolding ring_push
type_byte canonical echo erase b p =
    if canonical && (b == erase || b == 0x08)
    then erased echo p
    else if canonical
    then collected echo b p
    else echoed echo (b ∷ []) (record p { to_slave = ring_push p.to_slave (b ∷ []) })

unfoldable pub type_bytes : (canonical echo : Bool) → (erase : ℕ) → List ℕ → Pty → Pty
unfolding type_byte
type_bytes canonical echo erase [] p = p
type_bytes canonical echo erase (b ∷ bytes) p =
    type_bytes canonical echo erase bytes (type_byte canonical echo erase b p)

-- The pseudo-terminal after a write by its master, and the number that is answered.
unfoldable pub write_line : List ℕ → Pty → Pty × ℕ
unfolding type_bytes ring_push termios_lflag
write_line bytes p =
    if not (is_canonical p) && not (is_echo p)
    then (record p { to_slave = ring_push p.to_slave bytes }, pushed p.to_slave bytes)
    else (type_bytes (is_canonical p) (is_echo p) (erase_of p) bytes p, length bytes)

abbrev pub write_found : ℕ → (master : ℕ) → List ℕ → Ptys → Option Pty → Ptys × Option ℕ
write_found id master bytes t none = (t, none)
write_found id master bytes t (some p) =
    let (p1, n) = write_line bytes p in
    if p.master != master then (t, none) else (put id p1 t, some n)

unfoldable pub master_write : ℕ → (master : ℕ) → List ℕ → Ptys → Ptys × Option ℕ
unfolding write_line
master_write id master bytes t = write_found id master bytes t (lookup id t.table)

-- `master_read`, into a slice of length `len`: the count, whether the line is hung up, and the bytes.
module _ (process_exists : ℕ → Bool) where
  abbrev pub is_gone : Option ℕ → Bool
  is_gone none = false
  is_gone (some slave) = not (process_exists slave)

  abbrev pub read_found :
      ℕ → (master len : ℕ) → Ptys → Option Pty → Ptys × Option (ℕ × Bool) × List ℕ
  read_found id master len t none = (t, none, [])
  read_found id master len t (some p) =
      let (ring, bytes) = ring_pop len p.to_master in
      if p.master == master
      then (
        put id (record p { to_master = ring }) t,
        some (length bytes, is_gone p.slave && is_empty ring),
        bytes,
      )
      else (t, none, [])

  unfoldable pub master_read : ℕ → (master len : ℕ) → Ptys → Ptys × Option (ℕ × Bool) × List ℕ
  unfolding ring_pop
  master_read id master len t = read_found id master len t (lookup id t.table)

abbrev pub close_found : ℕ → (master : ℕ) → Ptys → Option Pty → Ptys × Bool
close_found id master t none = (t, false)
close_found id master t (some p) =
    if p.master == master then (record t { table = remove id t.table }, true) else (t, false)

unfoldable pub close : ℕ → (master : ℕ) → Ptys → Ptys × Bool
close id master t = close_found id master t (lookup id t.table)

unfoldable pub on_process_exit : ℕ → Ptys → Ptys
on_process_exit pid t = record t { table = filter (λ id p. p.master != pid) t.table }
