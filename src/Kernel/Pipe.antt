-- ===== src/Kernel/Pipe.antt =====
-- kernel/src/pipe.rs: anonymous pipes, which are bounded byte queues with counted ends.
pub mod Queue
pub mod Bound
pub mod Readiness
mod Examples
use dunit_os.Prelude.{
  ℕ, ◌+◌, ◌*◌, ◌-◌, ◌%◌, ◌^◌, Bool, true, false, not, ◌&&◌, ◌||◌, List, [], ◌++◌, length, take,
  drop, is_empty, Option, none, some, min, ltb, ◌==◌, if◌then◌else◌,
}
use dunit_os.Prelude.Table.{Table, lookup, insert, remove}

abbrev pub pipe_capacity : ℕ
pipe_capacity = 64 * 1024

pub record Pipe : Type 0 where
  pub buf : List ℕ
  pub read_refs : ℕ
  pub write_refs : ℕ

pub record Registry : Type 0 where
  pub pipes : Table Pipe
  pub next_id : ℕ

pub data PipeRead : Type 0 where
  data_read : ℕ → PipeRead
  would_block : PipeRead
  eof : PipeRead

pub data PipeWrite : Type 0 where
  wrote : ℕ → PipeWrite
  would_block : PipeWrite
  broken : PipeWrite

abbrev pub new_pipe : Pipe
new_pipe = record { buf = []; read_refs = 1; write_refs = 1 }

-- The registry after, and the new pipe's id.
unfoldable pub create : Registry → Registry × ℕ
create reg = (
  record { pipes = insert reg.next_id new_pipe reg.pipes; next_id = (reg.next_id + 1) % 2 ^ 64 },
  reg.next_id,
)

abbrev pub put : ℕ → Pipe → Registry → Registry
put id p reg = record reg { pipes = insert id p reg.pipes }

abbrev pub retained : Bool → Pipe → Pipe
retained true p = record p { write_refs = (p.write_refs + 1) % 2 ^ 32 }
retained false p = record p { read_refs = (p.read_refs + 1) % 2 ^ 32 }

abbrev retain_found : ℕ → Bool → Registry → Option Pipe → Registry
retain_found id write_end reg none = reg
retain_found id write_end reg (some p) = put id (retained write_end p) reg

unfoldable pub retain : ℕ → (write_end : Bool) → Registry → Registry
retain id write_end reg = retain_found id write_end reg (lookup id reg.pipes)

-- One reference less, with `saturating_sub`.
abbrev pub released : Bool → Pipe → Pipe
released true p = record p { write_refs = p.write_refs - 1 }
released false p = record p { read_refs = p.read_refs - 1 }

abbrev pub refs_of : Bool → Pipe → ℕ
refs_of true p = p.write_refs
refs_of false p = p.read_refs

abbrev pub is_dead : Pipe → Bool
is_dead p = p.read_refs == 0 && p.write_refs == 0

abbrev pub release_found : ℕ → Bool → Registry → Option Pipe → Registry × Bool
release_found id write_end reg none = (reg, false)
release_found id write_end reg (some p) = (
  if is_dead (released write_end p)
      then record reg { pipes = remove id reg.pipes }
      else put id (released write_end p) reg,
  refs_of write_end (released write_end p) == 0,
)

-- The registry after, and whether the other end's waiters are to be woken.
unfoldable pub release : ℕ → (write_end : Bool) → Registry → Registry × Bool
release id write_end reg = release_found id write_end reg (lookup id reg.pipes)

unfoldable pub is_readable : ℕ → Registry → Bool
is_readable id reg = elim (lookup id reg.pipes) [
  | none ↦ true
  | some p ↦ not (is_empty p.buf) || p.write_refs == 0
]

unfoldable pub is_writable : ℕ → Registry → Bool
is_writable id reg = elim (lookup id reg.pipes) [
  | none ↦ true
  | some p ↦ p.read_refs == 0 || ltb (length p.buf) pipe_capacity
]

unfoldable pub write_closed : ℕ → Registry → Bool
write_closed id reg = elim (lookup id reg.pipes) [ none ↦ true | some p ↦ p.write_refs == 0 ]

-- The registry after, the answer, and the bytes that `out` starts with then.
abbrev pub read_found : ℕ → (len : ℕ) → Registry → Option Pipe → Registry × PipeRead × List ℕ
read_found id len reg none = (reg, PipeRead.eof, [])
read_found id len reg (some p) =
    if is_empty p.buf
    then (reg, (if p.write_refs == 0 then PipeRead.eof else PipeRead.would_block), [])
    else (
      put id (record p { buf = drop (min len (length p.buf)) p.buf }) reg,
      PipeRead.data_read (min len (length p.buf)),
      take (min len (length p.buf)) p.buf,
    )

-- `read`, into a slice of length `len`.
unfoldable pub read : ℕ → (len : ℕ) → Registry → Registry × PipeRead × List ℕ
read id len reg = read_found id len reg (lookup id reg.pipes)

abbrev pub write_found : ℕ → List ℕ → Registry → Option Pipe → Registry × PipeWrite
write_found id bytes reg none = (reg, PipeWrite.broken)
write_found id bytes reg (some p) =
    let space = pipe_capacity - length p.buf in
    if p.read_refs == 0
    then (reg, PipeWrite.broken)
    else if space == 0
    then (reg, PipeWrite.would_block)
    else (
      put id (record p { buf = p.buf ++ take (min space (length bytes)) bytes }) reg,
      PipeWrite.wrote (min space (length bytes)),
    )

unfoldable pub write : ℕ → List ℕ → Registry → Registry × PipeWrite
write id bytes reg = write_found id bytes reg (lookup id reg.pipes)
