-- ===== src/Kernel/Scheduler.antt =====
-- kernel/src/process/scheduler.rs: the round-robin queue of ready processes. Which processes can run
-- is the process table's state, and is given by `runnable`.
pub mod Picks
mod Examples
use dunit_os.Prelude.{
  ℕ, ◌+◌, ◌-◌, ◌*◌, ◌%◌, ◌^◌, zero, suc, Bool, true, false, not, ◌&&◌, ◌||◌, List, [], ◌∷◌, ◌++◌,
  length, take, drop, is_empty, retain, contains, get_or, Option, none, some, ltb, leb, ◌==◌, ◌!=◌,
  if◌then◌else◌,
}
use dunit_os.Prelude.Results.{Result, ok, err}

pub data ProcessError : Type 0 where
  not_runnable : ProcessError
  scheduler_unavailable : ProcessError

pub record Scheduler : Type 0 where
  pub ready_queue : List ℕ
  pub cursor : ℕ

-- `Scheduler::new`.
abbrev pub new_scheduler : Scheduler
new_scheduler = record { ready_queue = []; cursor = 0 }

-- `Vec::remove` at an index inside the list.
abbrev pub remove_at : ℕ → List ℕ → List ℕ
remove_at i [] = []
remove_at zero (x ∷ xs) = xs
remove_at (suc i) (x ∷ xs) = x ∷ remove_at i xs

abbrev pub is_pid : Option ℕ → ℕ → Bool
is_pid none pid = false
is_pid (some e) pid = e == pid

-- One turn of the loop, at a cursor inside the queue: a pick, or a removal.
abbrev pub wrapped : Scheduler → ℕ
wrapped s = if leb (length s.ready_queue) s.cursor then 0 else s.cursor

abbrev pub dropped : ℕ → Scheduler → Scheduler
dropped at s = record { ready_queue = remove_at at s.ready_queue; cursor = at }

abbrev pub picked : ℕ → Scheduler → Scheduler
picked at s = record s { cursor = (at + 1) % length s.ready_queue }

module _ (runnable : ℕ → Bool) where
  unfoldable pub enqueue : ℕ → Scheduler → Scheduler × Result ProcessError (Unit {0})
  enqueue pid s =
      if not (runnable pid)
      then (s, err ProcessError.not_runnable)
      else if contains s.ready_queue pid
      then (s, ok tt)
      else (record s { ready_queue = s.ready_queue ++ (pid ∷ []) }, ok tt)

  -- The loop, on the turns that are left of `len`.
  unfoldable pub pick_loop : (turns : ℕ) → Option ℕ → Scheduler → Scheduler × Option ℕ
  pick_loop zero excluded s = (s, none)
  pick_loop (suc turns) excluded s =
      let at = wrapped s in
      let pid = get_or s.ready_queue at 0 in
      let rest = pick_loop turns excluded (dropped at s) in
      if is_empty s.ready_queue
      then (s, none)
      else if is_pid excluded pid
      then rest
      else if runnable pid
      then (picked at s, some pid)
      else rest

  unfoldable pub pick_next_excluding : Option ℕ → Scheduler → Scheduler × Option ℕ
  unfolding pick_loop
  pick_next_excluding excluded s = pick_loop (length s.ready_queue) excluded s

  unfoldable pub pick_next : Scheduler → Scheduler × Option ℕ
  unfolding pick_next_excluding
  pick_next s = pick_next_excluding none s

unfoldable pub remove : ℕ → Scheduler → Scheduler
remove pid s =
    let queue = retain (λ queued. queued != pid) s.ready_queue in
    record { ready_queue = queue; cursor = if leb (length queue) s.cursor then 0 else s.cursor }

-- The lock-protected instance, which is absent before `init`.
module _ (runnable : ℕ → Bool) where
  unfoldable pub enqueue_ready :
      ℕ → Option Scheduler → Option Scheduler × Result ProcessError (Unit {0})
  unfolding enqueue
  enqueue_ready pid none = (none, err ProcessError.scheduler_unavailable)
  enqueue_ready pid (some s) = let r = enqueue runnable pid s in (some r.0, r.1)

  unfoldable pub pick_next_candidate_excluding : ℕ → Option Scheduler → Option Scheduler × Option ℕ
  unfolding pick_next_excluding
  pick_next_candidate_excluding pid none = (none, none)
  pick_next_candidate_excluding pid (some s) =
      let r = pick_next_excluding runnable (some pid) s in (some r.0, r.1)

  unfoldable pub pick_next_candidate : Option Scheduler → Option Scheduler × Option ℕ
  unfolding pick_next
  pick_next_candidate none = (none, none)
  pick_next_candidate (some s) = let r = pick_next runnable s in (some r.0, r.1)

-- `init`, `remove` and `ready_len` of the instance.
abbrev pub init_scheduler : Option Scheduler
init_scheduler = some new_scheduler

unfoldable pub remove_ready : ℕ → Option Scheduler → Option Scheduler
unfolding remove
remove_ready pid none = none
remove_ready pid (some s) = some (remove pid s)

abbrev pub ready_len : Option Scheduler → ℕ
ready_len none = 0
ready_len (some s) = length s.ready_queue
