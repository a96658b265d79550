-- ===== src/Kernel/Pty/Bounds.antt =====
-- kernel/src/pty/mod.rs: the length of the rings.
use dunit_os.Prelude.{
  ℕ, zero, suc, ◌≡◌, ◌≤◌, refl, min, Bool, true, false, not, ◌&&◌, ◌||◌, List, [], ◌∷◌, ◌++◌,
  length, is_empty, Option, none, some, ◌==◌, ◌!=◌, arith, if-cases, length-drop, Option-cases, inl,
  inr,
}
use dunit_os.Prelude.Table.{lookup}
use dunit_os.Prelude.Entries.{
  AllValues, insert-AllValues, remove-AllValues, filter-AllValues, lookup-AllValues,
}
use dunit_os.Kernel.Pty.{
  Pty, Ptys, pty_ring_cap, ring_push, ring_pop, echoed, type_byte, type_bytes, write_line, create,
  new_pty, attach_slave, attach_found, master_write, write_found, master_read, read_found, close,
  close_found, on_process_exit, find_by_slave, put, is_canonical, is_echo, erase_of, newline,
  pop_back,
}
use dunit_os.Kernel.Pty.Slave.{
  read_line, set_termios, slave_read_stdin, slave_input, slave_write_stdout, with_slave,
}
use dunit_os.Kernel.Pty.Line.{length-push}
use dunit_os.Kernel.Pty.Calls.{Call, step, run}

pub record IsBounded (p : Pty) : Type 0 where
  pub slave_side : length p.to_slave ≤ pty_ring_cap
  pub master_side : length p.to_master ≤ pty_ring_cap

push-le :
    (ring bytes : List ℕ)
    → length ring ≤ pty_ring_cap
    → length (ring_push ring bytes) ≤ pty_ring_cap
push-le ring bytes h = omega (arith, length-push ring bytes)

read_line-le : (room : ℕ) (ring : List ℕ) → length (read_line room ring).0 ≤ length ring
unfolding read_line
read_line-le zero ring = omega arith
read_line-le (suc room) [] = omega arith
read_line-le (suc room) (b ∷ ring) = ground (arith, read_line-le room ring)

ring_pop-le : (len : ℕ) (ring : List ℕ) → length (ring_pop len ring).0 ≤ length ring
unfolding ring_pop
ring_pop-le len ring = omega (arith, length-drop (min (length ring) len) ring)

slave_input-le : (len : ℕ) (p : Pty) → length (slave_input len p).0 ≤ length p.to_slave
slave_input-le len p = ground (arith, read_line-le len p.to_slave, ring_pop-le len p.to_slave)

echoed-IsBounded :
    (echo : Bool) (bytes : List ℕ) (p : Pty) → IsBounded p → IsBounded (echoed echo bytes p)
echoed-IsBounded true bytes p h = record {
  slave_side = h.slave_side;
  master_side = push-le p.to_master bytes h.master_side;
}
echoed-IsBounded false bytes p h = h

type_byte-IsBounded :
    (canonical echo : Bool) (erase b : ℕ) (p : Pty)
    → IsBounded p
    → IsBounded (type_byte canonical echo erase b p)
unfolding type_byte
type_byte-IsBounded true echo erase b p h =
    if-cases IsBounded (b == erase || b == 0x08)
      (λ _.
        if-cases IsBounded (is_empty p.canon) (λ _. h)
          (λ _.
            echoed-IsBounded echo (0x08 ∷ b' ' ∷ 0x08 ∷ []) (record p { canon = pop_back p.canon })
              (record { slave_side = h.slave_side; master_side = h.master_side })))
      (λ _.
        let p1 = echoed echo (b ∷ []) (record p { canon = p.canon ++ (b ∷ []) }) in
        let h1 =
          echoed-IsBounded echo (b ∷ []) (record p { canon = p.canon ++ (b ∷ []) })
            (record { slave_side = h.slave_side; master_side = h.master_side }) in
        if-cases IsBounded (b == newline)
          (λ _. record {
            slave_side = push-le p1.to_slave p1.canon h1.slave_side;
            master_side = h1.master_side;
          })
          (λ _. h1))
type_byte-IsBounded false echo erase b p h =
    echoed-IsBounded echo (b ∷ []) (record p { to_slave = ring_push p.to_slave (b ∷ []) })
      (record {
        slave_side = push-le p.to_slave (b ∷ []) h.slave_side;
        master_side = h.master_side;
      })

type_bytes-IsBounded :
    (canonical echo : Bool) (erase : ℕ) (bytes : List ℕ) (p : Pty)
    → IsBounded p
    → IsBounded (type_bytes canonical echo erase bytes p)
unfolding type_bytes
type_bytes-IsBounded canonical echo erase [] p h = h
type_bytes-IsBounded canonical echo erase (b ∷ bytes) p h =
    type_bytes-IsBounded canonical echo erase bytes (type_byte canonical echo erase b p)
      (type_byte-IsBounded canonical echo erase b p h)

write_line-IsBounded : (bytes : List ℕ) (p : Pty) → IsBounded p → IsBounded (write_line bytes p).0
unfolding write_line
write_line-IsBounded bytes p h =
    if-cases (λ (r : Pty × ℕ). IsBounded r.0) (not (is_canonical p) && not (is_echo p))
      (λ _. record {
        slave_side = push-le p.to_slave bytes h.slave_side;
        master_side = h.master_side;
      })
      (λ _. type_bytes-IsBounded (is_canonical p) (is_echo p) (erase_of p) bytes p h)

abbrev pub AllBounded : Ptys → Type 0
AllBounded t = AllValues IsBounded t.table

put-AllBounded :
    (id : ℕ) (p : Pty) (t : Ptys) → IsBounded p → AllBounded t → AllBounded (put id p t)
put-AllBounded id p t h a = insert-AllValues IsBounded id p t.table h a

-- A call that finds a slave and writes its entry.
with_slave-AllBounded :
    {A : Type 0} (out : A → Ptys) (pid : ℕ) (t : Ptys) (missing : A) (f : ℕ → Pty → A)
    → AllBounded t
    → out missing ≡ t
    → ((id : ℕ) (p : Pty) → IsBounded p → AllBounded (out (f id p)))
    → AllBounded (out (with_slave pid t missing f))
with_slave-AllBounded out pid t missing f a e h = elim (Option-cases (find_by_slave pid t)) [
  | inl none_found ↦ rw (none_found, with_slave) (rw e a)
  | inr (id, found) ↦ elim (Option-cases (lookup id t.table)) [
    | inl gone ↦ rw (found, gone, with_slave) (rw e a)
    | inr (p, here) ↦
        rw (found, here, with_slave) (h id p (lookup-AllValues IsBounded id t.table a here))
  ]
]

-- A call that looks an entry up by its id.
found-AllBounded :
    {A : Type 0} (out : A → Ptys) (id : ℕ) (t : Ptys) (go : Option Pty → A)
    → AllBounded t
    → AllBounded (out (go none))
    → ((p : Pty) → IsBounded p → AllBounded (out (go (some p))))
    → AllBounded (out (go (lookup id t.table)))
found-AllBounded out id t go a gone here = elim (Option-cases (lookup id t.table)) [
  | inl e ↦ rw e gone
  | inr (p, e) ↦ rw e (here p (lookup-AllValues IsBounded id t.table a e))
]

module _ (process_exists : ℕ → Bool) where
  step-AllBounded : (c : Call) (t : Ptys) → AllBounded t → AllBounded (step process_exists c t)
  unfolding step create new_pty attach_slave master_write set_termios master_read close
      slave_read_stdin slave_write_stdout on_process_exit
  step-AllBounded (Call.create master) t a =
      insert-AllValues IsBounded _ (new_pty master) t.table (omega arith) a
  step-AllBounded (Call.attach_slave id master slave) t a =
      found-AllBounded (λ (r : Ptys × Bool). r.0) id t (attach_found id master slave t) a a
        (λ p h.
          if-cases (λ (r : Ptys × Bool). AllBounded r.0) (p.master == master)
            (λ _.
              put-AllBounded id _ t
                (record { slave_side = h.slave_side; master_side = h.master_side }) a)
            (λ _. a))
  step-AllBounded (Call.master_write id master bytes) t a =
      found-AllBounded (λ (r : Ptys × Option ℕ). r.0) id t (write_found id master bytes t) a a
        (λ p h.
          if-cases (λ (r : Ptys × Option ℕ). AllBounded r.0) (p.master != master) (λ _. a)
            (λ _. put-AllBounded id _ t (write_line-IsBounded bytes p h) a))
  step-AllBounded (Call.set_termios pid blob) t a =
      with_slave-AllBounded (λ (r : Ptys × Bool). r.0) pid t _ _ a refl
        (λ id p h.
          put-AllBounded id _ t (record { slave_side = h.slave_side; master_side = h.master_side })
            a)
  step-AllBounded (Call.master_read id master len) t a =
      found-AllBounded (λ (r : Ptys × Option (ℕ × Bool) × List ℕ). r.0) id t
        (read_found process_exists id master len t) a a
        (λ p h.
          if-cases (λ (r : Ptys × Option (ℕ × Bool) × List ℕ). AllBounded r.0) (p.master == master)
            (λ _.
              put-AllBounded id _ t
                (record {
                  slave_side = h.slave_side;
                  master_side = omega (arith, ring_pop-le len p.to_master, h.master_side);
                })
                a)
            (λ _. a))
  step-AllBounded (Call.close id master) t a =
      found-AllBounded (λ (r : Ptys × Bool). r.0) id t (close_found id master t) a a
        (λ p h.
          if-cases (λ (r : Ptys × Bool). AllBounded r.0) (p.master == master)
            (λ _. remove-AllValues IsBounded id t.table a) (λ _. a))
  step-AllBounded (Call.slave_read_stdin pid len) t a =
      with_slave-AllBounded (λ (r : Ptys × Option _ × List ℕ). r.0) pid t _ _ a refl
        (λ id p h.
          put-AllBounded id _ t
            (record {
              slave_side = omega (arith, slave_input-le len p, h.slave_side);
              master_side = h.master_side;
            })
            a)
  step-AllBounded (Call.slave_write_stdout pid bytes) t a =
      with_slave-AllBounded (λ (r : Ptys × Bool). r.0) pid t _ _ a refl
        (λ id p h.
          put-AllBounded id _ t
            (record {
              slave_side = h.slave_side;
              master_side = push-le p.to_master bytes h.master_side;
            })
            a)
  step-AllBounded (Call.on_process_exit pid) t a = filter-AllValues IsBounded _ t.table a

  -- Through any calls of masters and slaves, neither ring of any pseudo-terminal holds more than 8192 bytes.
  pub run-AllBounded :
      (calls : List Call) (t : Ptys) → AllBounded t → AllBounded (run process_exists calls t)
  unfolding run
  run-AllBounded [] t a = a
  run-AllBounded (c ∷ cs) t a = run-AllBounded cs (step process_exists c t) (step-AllBounded c t a)
