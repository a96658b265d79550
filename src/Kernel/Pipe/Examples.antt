-- ===== src/Kernel/Pipe/Examples.antt =====
-- kernel/src/pipe.rs: one pipe in use, as an example of the theorems.
use dunit_os.Prelude.{◌≡◌, ◌≤◌, ◌↔◌, refl, true, false, not, List, [], ◌∷◌, ◌++◌, none, some}
use dunit_os.Prelude.Table.{lookup, insert}
use dunit_os.Kernel.Pipe
use dunit_os.Kernel.Pipe.{
  Pipe, Registry, PipeRead, PipeWrite, new_pipe, refs_of, is_readable, is_writable,
}
use dunit_os.Kernel.Pipe.Queue.{Op, Trace, step, run, run_fifo}
use dunit_os.Kernel.Pipe.Bound.{IsBounded, step-IsBounded}
use dunit_os.Kernel.Pipe.Readiness.{would_block_lem, release_lem}

abbrev empty_registry : Registry
empty_registry = record { pipes = []; next_id = 1 }

abbrev one_pipe : Registry
one_pipe = record { pipes = (1, new_pipe) ∷ []; next_id = 2 }

abbrev use_it : List Op
use_it = Op.write (10 ∷ 20 ∷ 30 ∷ []) ∷ Op.read 2 ∷ Op.write (40 ∷ []) ∷ Op.retain true ∷ []

abbrev start : Trace
start = record { reg = one_pipe; written = []; got = [] }

abbrev end_pipe : Pipe
end_pipe = record { buf = 30 ∷ 40 ∷ []; read_refs = 1; write_refs = 2 }

found : lookup 1 one_pipe.pipes ≡ some new_pipe
unfolding lookup
found = refl

found_after : lookup 1 (run 1 use_it start).reg.pipes ≡ some end_pipe
unfolding run step lookup insert Pipe.read Pipe.write Pipe.retain
found_after = refl

run_fifo_example :
    new_pipe.buf ++ (run 1 use_it start).written ≡ (run 1 use_it start).got ++ end_pipe.buf
run_fifo_example = run_fifo 1 use_it one_pipe new_pipe end_pipe found found_after

would_block_lem_example :
    ((Pipe.read 1 4 one_pipe).1 ≡ PipeRead.would_block ↔ is_readable 1 one_pipe ≡ false)
    × ((Pipe.write 1 (5 ∷ []) one_pipe).1 ≡ PipeWrite.would_block ↔ is_writable 1 one_pipe ≡ false)
would_block_lem_example = would_block_lem 1 4 (5 ∷ []) one_pipe

release_lem_example :
    (lookup 1 (Pipe.release 1 true one_pipe).0.pipes ≡ none
      ↔ (refs_of true new_pipe ≤ 1) × (refs_of (not true) new_pipe ≡ 0))
    × ((Pipe.release 1 true one_pipe).1 ≡ true ↔ refs_of true new_pipe ≤ 1)
release_lem_example = release_lem 1 true one_pipe new_pipe found

empty-IsBounded : IsBounded empty_registry
unfolding lookup
empty-IsBounded id p e = absurd (cc)

one_pipe-IsBounded : IsBounded one_pipe
unfolding Pipe.create insert
one_pipe-IsBounded =
    (step-IsBounded 1 (Op.read 0) (record { reg = empty_registry; written = []; got = [] })
      empty-IsBounded).1

step-IsBounded_example :
    IsBounded (step 1 (Op.write (10 ∷ [])) start).reg × IsBounded (Pipe.create start.reg).0
step-IsBounded_example = step-IsBounded 1 (Op.write (10 ∷ [])) start one_pipe-IsBounded
