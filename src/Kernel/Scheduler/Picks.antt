-- ===== src/Kernel/Scheduler/Picks.antt =====
-- kernel/src/process/scheduler.rs: what `pick_next_excluding` returns and what it leaves.
use dunit_os.Prelude.{
  ℕ, ◌+◌, ◌≡◌, ◌≤◌, ◌<◌, zero, suc, refl, ap, Bool, true, false, not, ◌&&◌, ◌||◌, List, [], ◌∷◌,
  length, is_empty, contains, get_or, Option, none, some, arith, if-cases, ◌==◌, ==→≡,
}
use dunit_os.Kernel.Scheduler.{
  Scheduler, remove_at, is_pid, wrapped, dropped, picked, pick_loop, pick_next_excluding,
}

contains-remove_at :
    (i pid : ℕ) (xs : List ℕ)
    → i < length xs
    → contains xs pid ≡ (get_or xs i 0 == pid || contains (remove_at i xs) pid)
contains-remove_at i pid [] h = absurd (omega arith)
contains-remove_at zero pid (x ∷ xs) h = refl
contains-remove_at (suc i) pid (x ∷ xs) h = ground (arith, contains-remove_at i pid xs)

length-remove_at : (i : ℕ) (xs : List ℕ) → i < length xs → length (remove_at i xs) + 1 ≡ length xs
length-remove_at i [] h = absurd (omega arith)
length-remove_at zero (x ∷ xs) h = omega arith
length-remove_at (suc i) (x ∷ xs) h = ground (arith, length-remove_at i xs)

empty_contains : (xs : List ℕ) (pid : ℕ) → is_empty xs ≡ true → contains xs pid ≡ false
empty_contains [] pid h = refl
empty_contains (x ∷ xs) pid h = absurd (cc)

wrapped-lt : (s : Scheduler) → is_empty s.ready_queue ≡ false → wrapped s < length s.ready_queue
wrapped-lt s h = ground (arith, length_pos s.ready_queue)
  where
    length_pos : (xs : List ℕ) → is_empty xs ≡ false → 0 < length xs
    length_pos [] e = absurd (cc)
    length_pos (x ∷ xs) e = omega arith

module _ (runnable : ℕ → Bool) (excluded : Option ℕ) where
  -- A process that the scheduler may pick.
  abbrev pub is_eligible : ℕ → Bool
  is_eligible pid = runnable pid && not (is_pid excluded pid)

  -- What a result of the loop says of the queue that it started from.
  record Picks (s : Scheduler) (r : Scheduler × Option ℕ) : Type 0 where
    found : (pid : ℕ) → r.1 ≡ some pid → (contains s.ready_queue pid && is_eligible pid) ≡ true
    missed : r.1 ≡ none → (pid : ℕ) → contains s.ready_queue pid ≡ true → is_eligible pid ≡ false
    kept :
        (pid : ℕ)
        → is_eligible pid ≡ true
        → contains r.0.ready_queue pid ≡ contains s.ready_queue pid

  empty-Picks : (s : Scheduler) → is_empty s.ready_queue ≡ true → Picks s (s, none)
  empty-Picks s h = record {
    found = λ pid e. absurd (cc);
    missed = λ e pid k. absurd (cc (empty_contains s.ready_queue pid h, k));
    kept = λ pid e. refl;
  }

  picked-Picks :
      (s : Scheduler) (at : ℕ)
      → at < length s.ready_queue
      → is_eligible (get_or s.ready_queue at 0) ≡ true
      → Picks s (picked at s, some (get_or s.ready_queue at 0))
  picked-Picks s at h e = record {
    found =
        λ pid k. ground (arith, contains-remove_at at (get_or s.ready_queue at 0) s.ready_queue h);
    missed = λ k. absurd (cc);
    kept = λ pid k. refl;
  }

  same_eligible : (a b : ℕ) → (a == b) ≡ true → is_eligible a ≡ is_eligible b
  same_eligible a b h = ap (λ x. is_eligible x) (==→≡ a b h)

  -- A process that may not be picked has left the queue.
  dropped-Picks :
      (s : Scheduler) (at : ℕ) (r : Scheduler × Option ℕ)
      → at < length s.ready_queue
      → is_eligible (get_or s.ready_queue at 0) ≡ false
      → Picks (dropped at s) r
      → Picks s r
  dropped-Picks s at r h e p = record {
    found = λ pid k. ground (arith, p.found pid k, contains-remove_at at pid s.ready_queue h);
    missed = λ k pid c. ground (
      arith,
      contains-remove_at at pid s.ready_queue h,
      p.missed k pid,
      same_eligible (get_or s.ready_queue at 0) pid,
    );
    kept = λ pid k. ground (
      arith,
      contains-remove_at at pid s.ready_queue h,
      p.kept pid k,
      same_eligible (get_or s.ready_queue at 0) pid,
    );
  }

  loop-Picks :
      (turns : ℕ) (s : Scheduler)
      → length s.ready_queue ≤ turns
      → Picks s (pick_loop runnable turns excluded s)
  unfolding pick_loop
  loop-Picks zero s h = empty-Picks s (ground arith)
  loop-Picks (suc turns) s h =
      let at : ℕ = wrapped s in
      let pid : ℕ = get_or s.ready_queue at 0 in
      if-cases (Picks s) (is_empty s.ready_queue) (λ e. empty-Picks s e)
        (λ e.
          let lt = wrapped-lt s e in
          let rest =
            loop-Picks turns (dropped at s) (omega (arith, length-remove_at at s.ready_queue lt)) in
          if-cases (Picks s) (is_pid excluded pid)
            (λ x. dropped-Picks s at _ lt (ground arith) rest)
            (λ x.
              if-cases (Picks s) (runnable pid) (λ y. picked-Picks s at lt (ground arith))
                (λ y. dropped-Picks s at _ lt (ground arith) rest)))

  -- `pick_next_excluding` finds a process whenever the queue holds one that can run and is not
  -- excluded, finds only such a process, and leaves every such process in the queue.
  pub pick_next_excluding_lem :
      (s : Scheduler)
      → ((pid : ℕ)
          → (pick_next_excluding runnable excluded s).1 ≡ some pid
          → (contains s.ready_queue pid && is_eligible pid) ≡ true)
        × ((pick_next_excluding runnable excluded s).1 ≡ none
            → (pid : ℕ) → contains s.ready_queue pid ≡ true
            → is_eligible pid ≡ false)
        × ((pid : ℕ)
            → is_eligible pid ≡ true
            → contains (pick_next_excluding runnable excluded s).0.ready_queue pid
              ≡ contains s.ready_queue pid)
  unfolding pick_next_excluding
  pick_next_excluding_lem s =
      let p = loop-Picks (length s.ready_queue) s (omega arith) in (p.found, p.missed, p.kept)
