-- ===== src/Kernel/Pipe/Readiness.antt =====
-- kernel/src/pipe.rs: the answers of the calls, the poll tests, and when a pipe goes away.
use dunit_os.Prelude.{ℕ, ◌≡◌, ◌≤◌, ◌↔◌, Bool, true, false, not, List, none, some, arith}
use dunit_os.Prelude.Table.{lookup, lookup-insert, lookup-remove}
use dunit_os.Kernel.Pipe
use dunit_os.Kernel.Pipe.{
  Pipe, Registry, PipeRead, PipeWrite, put, retained, retain_found, release_found, released,
  refs_of, read_found, write_found, pipe_capacity, new_pipe, is_dead, is_readable, is_writable,
}

-- `read` answers `WouldBlock` just when the read end does not poll readable, and `write` answers it
-- just when the write end does not poll writable.
pub would_block_lem :
    (id len : ℕ) (bytes : List ℕ) (reg : Registry)
    → ((Pipe.read id len reg).1 ≡ PipeRead.would_block ↔ is_readable id reg ≡ false)
      × ((Pipe.write id bytes reg).1 ≡ PipeWrite.would_block ↔ is_writable id reg ≡ false)
unfolding Pipe.read Pipe.write is_readable is_writable
would_block_lem id len bytes reg = ground arith

-- A release of one end of a pipe takes the pipe away just when that end had its last reference, or none,
-- and the other end has none; and it asks for a wake-up just when that end had at most one.
pub release_lem :
    (id : ℕ) (write_end : Bool) (reg : Registry) (p : Pipe)
    → lookup id reg.pipes ≡ some p
    → (lookup id (Pipe.release id write_end reg).0.pipes ≡ none
        ↔ (refs_of write_end p ≤ 1) × (refs_of (not write_end) p ≡ 0))
      × ((Pipe.release id write_end reg).1 ≡ true ↔ refs_of write_end p ≤ 1)
unfolding Pipe.release
release_lem id true reg p e =
    ground (arith, lookup-remove id id reg.pipes, lookup-insert id id (released true p) reg.pipes)
release_lem id false reg p e =
    ground (arith, lookup-remove id id reg.pipes, lookup-insert id id (released false p) reg.pipes)
