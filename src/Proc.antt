-- ===== src/Proc.antt =====
-- proc.h, with the signal numbers of types.h: the process record.
-- A `struct proc*` is an index of the process table. `p->tf` points into the process's own kernel
-- stack, at the frame that `sig_handler_runner` is also handed, so the record holds that frame.
-- `killed` and `freeze` are only set to 0 and 1 and tested for zero: truth values.
pub mod Signal
pub mod Runner
pub mod Table
pub mod Sched
pub mod Fork
pub mod Exit
pub mod Sample
use os.Base.{ℕ, ◌^◌, Bool, true, false, Option, List, ◌==◌}
use os.Machine.{TrapFrame}

pub data ProcState : Type 0 where
  unused embryo sleeping runnable running zombie : ProcState

-- `void *chan`: null, the address of a process (`wait` sleeps on its own), or of another object.
pub data Chan : Type 0 where
  null : Chan
  of_proc : ℕ → Chan
  at : ℕ → Chan

abbrev pub chan_eq : Chan → Chan → Bool
chan_eq null null = true
chan_eq (of_proc a) (of_proc b) = a == b
chan_eq (at a) (at b) = a == b
chan_eq _ _ = false

abbrev pub is_unused : ProcState → Bool
is_unused unused = true
is_unused _ = false

abbrev pub is_sleeping : ProcState → Bool
is_sleeping sleeping = true
is_sleeping _ = false

abbrev pub is_runnable : ProcState → Bool
is_runnable runnable = true
is_runnable _ = false

abbrev pub is_zombie : ProcState → Bool
is_zombie zombie = true
is_zombie _ = false

-- The `context` is left out: only swtch.S reads it. Addresses and words are numbers, 0 is null.
pub record Proc : Type 0 where
  pub sz : ℕ
  pub pgdir : ℕ
  pub kstack : ℕ
  pub state : ProcState
  pub pid : ℕ
  pub parent : Option ℕ
  pub tf : TrapFrame
  pub chan : Chan
  pub killed : Bool
  pub ofile : List (Option ℕ)
  pub cwd : Option ℕ
  pub name : List ℕ
  pub pending_signals : ℕ
  pub signal_mask : ℕ
  pub signal_handlers : List ℕ
  pub user_trap_fram_backup : ℕ
  pub freeze : Bool
  pub old_signal_mask : ℕ

abbrev pub sig_dfl : ℕ
sig_dfl = 0

abbrev pub sig_ign : ℕ
sig_ign = 1

abbrev pub sigkill : ℕ
sigkill = 9

abbrev pub sigstop : ℕ
sigstop = 17

abbrev pub sigcont : ℕ
sigcont = 19

abbrev pub nsig : ℕ
nsig = 32

-- `1 << i` in an `int`'s 32 bits
abbrev pub sig_bit : ℕ → ℕ
sig_bit i = 2 ^ i
