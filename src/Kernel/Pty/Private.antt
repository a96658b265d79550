-- ===== src/Kernel/Pty/Private.antt =====
-- kernel/src/pty/mod.rs: a pseudo-terminal under calls of other processes.
use dunit_os.Prelude.{
  ℕ, suc, ◌+◌, ◌%◌, ◌^◌, ◌≡◌, ◌≤◌, ◌<◌, refl, sym, subst, ◌∙◌, Bool, true, false, List, [], ◌∷◌,
  length, Option, none, some, ◌==◌, ◌!=◌, arith, if-cases, Bool-cases, Option-cases, inl, inr, ==→≡,
}
use dunit_os.Prelude.Table.{
  lookup, IsSorted, insert-IsSorted, remove-IsSorted, lookup-insert, lookup-remove, find_key-lookup,
}
use dunit_os.Prelude.Entries.{filter-IsSorted, lookup-filter}
use dunit_os.Kernel.Pty.{
  Pty, Ptys, is_pid, create, new_pty, attach_slave, attach_found, master_write, write_found,
  master_read, read_found, close, close_found, on_process_exit, find_by_slave, put,
}
use dunit_os.Kernel.Pty.Slave.{set_termios, slave_read_stdin, slave_write_stdout, with_slave}
use dunit_os.Kernel.Pty.Calls.{Call, step, run}

-- A call of a process that is neither the master nor the slave of `p`.
abbrev pub IsForeign : Pty → Call → Type 0
IsForeign p (Call.create master) = Unit
IsForeign p (Call.attach_slave id master slave) = (p.master == master) ≡ false
IsForeign p (Call.master_write id master bytes) = (p.master == master) ≡ false
IsForeign p (Call.set_termios pid blob) = is_pid p.slave pid ≡ false
IsForeign p (Call.master_read id master len) = (p.master == master) ≡ false
IsForeign p (Call.close id master) = (p.master == master) ≡ false
IsForeign p (Call.slave_read_stdin pid len) = is_pid p.slave pid ≡ false
IsForeign p (Call.slave_write_stdout pid bytes) = is_pid p.slave pid ≡ false
IsForeign p (Call.on_process_exit pid) = (p.master == pid) ≡ false

abbrev pub AllForeign : Pty → List Call → Type 0
AllForeign p [] = Unit
AllForeign p (c ∷ cs) = IsForeign p c × AllForeign p cs

-- The table is sorted, holds `p` at `id`, and hands out other ids for as many calls as are left.
record Holds (id : ℕ) (p : Pty) (left : ℕ) (t : Ptys) : Type 0 where
  sorted : IsSorted t.table
  here : lookup id t.table ≡ some p
  given : id < t.next_id
  fresh : t.next_id + left ≤ 2 ^ 32

-- The slave of the entry that a process is found at is that process.
find_slave :
    (pid other : ℕ) (t : Ptys)
    → IsSorted t.table
    → find_by_slave pid t ≡ some other
    → (q : Pty) × (lookup other t.table ≡ some q) × (is_pid q.slave pid ≡ true)
unfolding find_by_slave
find_slave pid other t s found = find_key-lookup (λ q. is_pid q.slave pid) 0 other t.table s found

module _ (id : ℕ) (p : Pty) (left : ℕ) (t : Ptys) (h : Holds id p (suc left) t) where
  same-Holds : Holds id p left t
  same-Holds = record {
    sorted = h.sorted;
    here = h.here;
    given = h.given;
    fresh = omega (arith, h.fresh);
  }

  put-Holds : (other : ℕ) (q : Pty) → (other == id) ≡ false → Holds id p left (put other q t)
  put-Holds other q ne = record {
    sorted = insert-IsSorted other q t.table h.sorted;
    here = ground (arith, lookup-insert other id q t.table, h.here);
    given = h.given;
    fresh = omega (arith, h.fresh);
  }

  -- A call on the entry at another id, or one that does nothing to `p`.
  found-Holds :
      {A : Type 0} (out : A → Ptys) (other : ℕ) (go : Option Pty → A)
      → out (go none) ≡ t
      → out (go (some p)) ≡ t
      → ((q : Pty) → (other == id) ≡ false → Holds id p left (out (go (some q))))
      → Holds id p left (out (go (lookup other t.table)))
  found-Holds out other go gone mine others = elim (Option-cases (lookup other t.table)) [
    | inl e ↦ rw (e, gone) same-Holds
    | inr (q, e) ↦ elim (Bool-cases (other == id)) [
      | inl same ↦
          let q_eq : lookup other t.table ≡ some p =
            subst (λ k. lookup k t.table ≡ some p) (sym (==→≡ other id same)) h.here in
          rw (q_eq, mine) same-Holds
      | inr ne ↦ rw e (others q ne)
    ]
  ]

  -- A call of a process that is not the slave of `p`.
  slave-Holds :
      {A : Type 0} (out : A → Ptys) (pid : ℕ) (missing : A) (f : ℕ → Pty → A)
      → is_pid p.slave pid ≡ false
      → out missing ≡ t
      → ((other : ℕ) (q : Pty) → (other == id) ≡ false → Holds id p left (out (f other q)))
      → Holds id p left (out (with_slave pid t missing f))
  slave-Holds out pid missing f foreign gone others = elim (Option-cases (find_by_slave pid t)) [
    | inl none_found ↦ rw (none_found, with_slave, gone) same-Holds
    | inr (other, found) ↦
        let (q, e, owns) = find_slave pid other t h.sorted found in
        rw (found, e, with_slave)
          (others other q (elim (Bool-cases (other == id)) [
            | inr ne ↦ ne
            | inl same ↦
                let q_eq : some q ≡ some p =
                  sym e
                  ∙ subst (λ k. lookup k t.table ≡ some p) (sym (==→≡ other id same)) h.here in
                ground (arith, q_eq, owns, foreign)
          ]))
  ]

module _ (process_exists : ℕ → Bool) (id : ℕ) (p : Pty) (left : ℕ) where
  step-Holds :
      (c : Call) (t : Ptys)
      → Holds id p (suc left) t
      → IsForeign p c
      → Holds id p left (step process_exists c t)
  unfolding step create new_pty attach_slave master_write set_termios master_read close
      slave_read_stdin slave_write_stdout on_process_exit
  step-Holds (Call.create master) t h f = record {
    sorted = insert-IsSorted _ (new_pty master) t.table h.sorted;
    here = ground (
      arith,
      lookup-insert (t.next_id % 2 ^ 32) id (new_pty master) t.table,
      h.here,
      h.given,
      h.fresh,
    );
    given = omega (arith, h.given, h.fresh);
    fresh = omega (arith, h.fresh);
  }
  step-Holds (Call.attach_slave other master slave) t h f =
      found-Holds id p left t h (λ (r : Ptys × Bool). r.0) other (attach_found other master slave t)
        refl (rw f refl)
        (λ q ne.
          if-cases (λ (r : Ptys × Bool). Holds id p left r.0) (q.master == master)
            (λ _. put-Holds id p left t h other _ ne) (λ _. same-Holds id p left t h))
  step-Holds (Call.master_write other master bytes) t h f =
      found-Holds id p left t h (λ (r : Ptys × Option ℕ). r.0) other
        (write_found other master bytes t) refl (rw (differ p.master master f) refl)
        (λ q ne.
          if-cases (λ (r : Ptys × Option ℕ). Holds id p left r.0) (q.master != master)
            (λ _. same-Holds id p left t h) (λ _. put-Holds id p left t h other _ ne))
    where
      differ : (a b : ℕ) → (a == b) ≡ false → (a != b) ≡ true
      differ a b e = ground arith
  step-Holds (Call.set_termios pid blob) t h f =
      slave-Holds id p left t h (λ (r : Ptys × Bool). r.0) pid _ _ f refl
        (λ other q ne. put-Holds id p left t h other _ ne)
  step-Holds (Call.master_read other master len) t h f =
      found-Holds id p left t h (λ (r : Ptys × Option (ℕ × Bool) × List ℕ). r.0) other
        (read_found process_exists other master len t) refl (rw f refl)
        (λ q ne.
          if-cases (λ (r : Ptys × Option (ℕ × Bool) × List ℕ). Holds id p left r.0)
            (q.master == master) (λ _. put-Holds id p left t h other _ ne)
            (λ _. same-Holds id p left t h))
  step-Holds (Call.close other master) t h f =
      found-Holds id p left t h (λ (r : Ptys × Bool). r.0) other (close_found other master t) refl
        (rw f refl)
        (λ q ne.
          if-cases (λ (r : Ptys × Bool). Holds id p left r.0) (q.master == master)
            (λ _. record {
              sorted = remove-IsSorted other t.table h.sorted;
              here = ground (arith, lookup-remove other id t.table, h.here);
              given = h.given;
              fresh = omega (arith, h.fresh);
            })
            (λ _. same-Holds id p left t h))
  step-Holds (Call.slave_read_stdin pid len) t h f =
      slave-Holds id p left t h (λ (r : Ptys × Option _ × List ℕ). r.0) pid _ _ f refl
        (λ other q ne. put-Holds id p left t h other _ ne)
  step-Holds (Call.slave_write_stdout pid bytes) t h f =
      slave-Holds id p left t h (λ (r : Ptys × Bool). r.0) pid _ _ f refl
        (λ other q ne. put-Holds id p left t h other _ ne)
  step-Holds (Call.on_process_exit pid) t h f = record {
    sorted = filter-IsSorted _ t.table h.sorted;
    here = lookup-filter (λ k q. q.master != pid) 0 id t.table h.sorted h.here (ground arith);
    given = h.given;
    fresh = omega (arith, h.fresh);
  }

-- A pseudo-terminal stays as it is, its termios, its rings and its slave included, through any calls of processes
-- that are neither its master nor its slave, as long as ids do not run over 32 bits.
pub run_private :
    (process_exists : ℕ → Bool) (id : ℕ) (p : Pty) (calls : List Call) (t : Ptys)
    → IsSorted t.table
    → lookup id t.table ≡ some p
    → id < t.next_id
    → t.next_id + length calls ≤ 2 ^ 32
    → AllForeign p calls
    → lookup id (run process_exists calls t).table ≡ some p
unfolding run
run_private process_exists id p [] t s e g k f = e
run_private process_exists id p (c ∷ cs) t s e g k f =
    let h =
      step-Holds process_exists id p (length cs) c t
        (record { sorted = s; here = e; given = g; fresh = k }) f.0 in
    run_private process_exists id p cs (step process_exists c t) h.sorted h.here h.given h.fresh f.1
