-- ===== src/Kernel/Scheduler/Examples.antt =====
-- kernel/src/process/scheduler.rs: a queue with a stopped process, as an example of the theorems.
use dunit_os.Prelude.{ℕ, ◌≡◌, true, false, Bool, ◌&&◌, [], ◌∷◌, contains, none, some, ltb}
use dunit_os.Kernel.Scheduler.{Scheduler, pick_next_excluding}
use dunit_os.Kernel.Scheduler.Picks.{is_eligible, pick_next_excluding_lem}

abbrev can_run : ℕ → Bool
can_run pid = ltb pid 10

abbrev waiting : Scheduler
waiting = record { ready_queue = 3 ∷ 12 ∷ 5 ∷ []; cursor = 4 }

pick_next_excluding_lem_example :
    ((pid : ℕ)
      → (pick_next_excluding can_run (some 3) waiting).1 ≡ some pid
      → (contains waiting.ready_queue pid && is_eligible can_run (some 3) pid) ≡ true)
    × ((pick_next_excluding can_run (some 3) waiting).1 ≡ none
        → (pid : ℕ) → contains waiting.ready_queue pid ≡ true
        → is_eligible can_run (some 3) pid ≡ false)
    × ((pid : ℕ)
        → is_eligible can_run (some 3) pid ≡ true
        → contains (pick_next_excluding can_run (some 3) waiting).0.ready_queue pid
          ≡ contains waiting.ready_queue pid)
pick_next_excluding_lem_example = pick_next_excluding_lem can_run (some 3) waiting
