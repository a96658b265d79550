-- ===== src/Kernel/Pty/Calls.antt =====
-- kernel/src/pty/mod.rs: any calls of masters and slaves on the table.
use dunit_os.Prelude.{ℕ, Bool, List, [], ◌∷◌}
use dunit_os.Kernel.Pty
use dunit_os.Kernel.Pty.Slave

pub data Call : Type 0 where
  create : (master : ℕ) → Call
  attach_slave : (id master slave : ℕ) → Call
  master_write : (id master : ℕ) → List ℕ → Call
  set_termios : (pid : ℕ) → List ℕ → Call
  master_read : (id master len : ℕ) → Call
  close : (id master : ℕ) → Call
  slave_read_stdin : (pid len : ℕ) → Call
  slave_write_stdout : (pid : ℕ) → List ℕ → Call
  on_process_exit : (pid : ℕ) → Call

module _ (process_exists : ℕ → Bool) where
  unfoldable pub step : Call → Pty.Ptys → Pty.Ptys
  step (Call.create master) t = (Pty.create master t).0
  step (Call.attach_slave id master slave) t = (Pty.attach_slave id master slave t).0
  step (Call.master_write id master bytes) t = (Pty.master_write id master bytes t).0
  step (Call.set_termios pid blob) t = (Slave.set_termios pid blob t).0
  step (Call.master_read id master len) t = (Pty.master_read process_exists id master len t).0
  step (Call.close id master) t = (Pty.close id master t).0
  step (Call.slave_read_stdin pid len) t = (Slave.slave_read_stdin process_exists pid len t).0
  step (Call.slave_write_stdout pid bytes) t = (Slave.slave_write_stdout pid bytes t).0
  step (Call.on_process_exit pid) t = Pty.on_process_exit pid t

  unfoldable pub run : List Call → Pty.Ptys → Pty.Ptys
  unfolding step
  run [] t = t
  run (c ∷ cs) t = run cs (step c t)
