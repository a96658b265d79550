-- ===== src/Kernel/Pty/Examples.antt =====
-- kernel/src/pty/mod.rs: a terminal in canonical mode with echo.
use dunit_os.Prelude.{ℕ, ◌≡◌, ◌++◌, refl, true, Bool, List, [], ◌∷◌, some, arith}
use dunit_os.Prelude.Table.{lookup, find_key}
use dunit_os.Kernel.Pty.{
  Pty, Ptys, termios_lflag, is_canonical, find_by_slave, write_line, newline, master_write,
  type_bytes, is_echo, erase_of,
}
use dunit_os.Kernel.Pty.Slave.{slave_read_stdin}
use dunit_os.Kernel.Pty.Line.{Cooked, canonical_lem, write_line_lem}
use dunit_os.Kernel.Pty.Typing.{type-read}
use dunit_os.Kernel.Pty.Calls.{Call, run}
use dunit_os.Kernel.Pty.Private.{run_private}

-- The termios of a terminal with ICANON and ECHO.
abbrev cooked_termios : List ℕ
cooked_termios =
    0 ∷ 0 ∷ 0 ∷ 0 ∷ 0 ∷ 0 ∷ 0 ∷ 0 ∷ 0 ∷ 0 ∷ 0 ∷ 0 ∷ 10 ∷ 0 ∷ 0 ∷ 0 ∷ 0 ∷ 0 ∷ 0 ∷ 0x7f ∷ []

abbrev tty : Pty
tty = record {
  master = 7;
  slave = some 9;
  to_slave = [];
  to_master = [];
  termios = cooked_termios;
  canon = [];
}

abbrev ptys : Ptys
ptys = record { table = (1, tty) ∷ []; next_id = 2 }

abbrev everyone : ℕ → Bool
everyone pid = true

canonical : is_canonical tty ≡ true
unfolding termios_lflag
canonical = refl

here : lookup 1 ptys.table ≡ some tty
unfolding lookup
here = refl

slave_found : find_by_slave 9 ptys ≡ some 1
unfolding find_by_slave find_key
slave_found = refl

abbrev typed : List ℕ
typed = b'l' ∷ b's' ∷ []

type-read_example :
    (slave_read_stdin everyone 9 16 (master_write 1 7 (typed ++ newline ∷ []) ptys).0).2
    ≡ typed ++ newline ∷ []
type-read_example =
    type-read ptys 1 7 9 16 tty typed everyone (omega arith) here slave_found refl canonical refl
      refl (refl, (refl, tt)) (omega arith) (omega arith) (omega arith)

canonical_lem_example :
    Cooked 0x7f
      (b'a' ∷ 0x7f ∷ newline ∷ b'b' ∷ [])
      tty
      (write_line (b'a' ∷ 0x7f ∷ newline ∷ b'b' ∷ []) tty).0
canonical_lem_example = canonical_lem (b'a' ∷ 0x7f ∷ newline ∷ b'b' ∷ []) tty canonical refl

write_line_lem_example :
    (write_line typed tty).0 ≡ type_bytes (is_canonical tty) (is_echo tty) (erase_of tty) typed tty
write_line_lem_example = write_line_lem typed tty

abbrev calls : List Call
calls =
    Call.create 5
    ∷ Call.attach_slave 2 5 6
    ∷ Call.master_write 1 5 typed
    ∷ Call.slave_write_stdout 6 typed
    ∷ Call.on_process_exit 5
    ∷ []

run_private_example : lookup 1 (run everyone calls ptys).table ≡ some tty
run_private_example =
    run_private everyone 1 tty calls ptys (omega arith) here (omega arith) (omega arith)
      (tt, (refl, (refl, (refl, (refl, tt)))))
