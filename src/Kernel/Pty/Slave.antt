-- ===== src/Kernel/Pty/Slave.antt =====
-- kernel/src/pty/mod.rs: what a slave asks of its pseudo-terminal, which is found by the process id.
use dunit_os.Prelude.{
  ℕ, zero, suc, min, Bool, true, false, not, List, [], ◌∷◌, ◌++◌, length, take, drop, is_empty,
  Option, none, some, ◌==◌, if◌then◌else◌,
}
use dunit_os.Prelude.Table.{lookup}
use dunit_os.Kernel.Pty.{
  termios_size, SlaveRead, Pty, Ptys, termios_lflag, is_canonical, ring_push, ring_pop,
  find_by_slave, put, newline,
}

-- A use of the pseudo-terminal that a slave is found at.
abbrev pub with_slave {ℓ} : {A : Type ℓ} → ℕ → Ptys → A → (ℕ → Pty → A) → A
with_slave pid t missing f = elim (find_by_slave pid t) [
  | none ↦ missing
  | some id ↦ elim (lookup id t.table) [ none ↦ missing | some p ↦ f id p ]
]

unfoldable pub get_termios : ℕ → Ptys → Option (List ℕ)
unfolding find_by_slave
get_termios pid t = with_slave pid t none (λ id p. some p.termios)

abbrev pub overwritten : List ℕ → List ℕ → List ℕ
overwritten blob old = let n : ℕ = min (length blob) termios_size in take n blob ++ drop n old

unfoldable pub set_termios : ℕ → List ℕ → Ptys → Ptys × Bool
unfolding find_by_slave
set_termios pid blob t =
    with_slave pid t (t, false)
      (λ id p. (put id (record p { termios = overwritten blob p.termios }) t, true))

unfoldable pub is_slave : ℕ → Ptys → Bool
unfolding find_by_slave
is_slave pid t = elim (find_by_slave pid t) [ none ↦ false | some id ↦ true ]

-- The loop of a canonical read, on the room that is left: the ring after, and the bytes.
unfoldable pub read_line : (room : ℕ) → List ℕ → List ℕ × List ℕ
read_line zero ring = (ring, [])
read_line (suc room) [] = ([], [])
read_line (suc room) (b ∷ ring) =
    let (rest, bytes) = read_line room ring in
    if b == newline then (ring, b ∷ []) else (rest, b ∷ bytes)

abbrev pub slave_input : (len : ℕ) → Pty → List ℕ × List ℕ
slave_input len p = if is_canonical p then read_line len p.to_slave else ring_pop len p.to_slave

module _ (process_exists : ℕ → Bool) where
  abbrev pub answer : List ℕ → Pty → SlaveRead
  answer bytes p =
      if not (is_empty bytes)
      then SlaveRead.data_read (length bytes)
      else if process_exists p.master
      then SlaveRead.would_block
      else SlaveRead.eof

  unfoldable pub slave_read_stdin : ℕ → (len : ℕ) → Ptys → Ptys × Option SlaveRead × List ℕ
  unfolding find_by_slave read_line ring_pop termios_lflag
  slave_read_stdin pid len t =
      with_slave pid t (t, none, [])
        (λ id p.
          let (ring, bytes) = slave_input len p in
          (put id (record p { to_slave = ring }) t, some (answer bytes p), bytes))

unfoldable pub slave_write_stdout : ℕ → List ℕ → Ptys → Ptys × Bool
unfolding find_by_slave ring_push
slave_write_stdout pid bytes t =
    with_slave pid t (t, false)
      (λ id p. (put id (record p { to_master = ring_push p.to_master bytes }) t, true))
