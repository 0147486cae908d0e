-- ===== src/Trap.antt =====
-- trap.c: what `trap` does, in order, up to its return or its call of `exit`. The routines that it
-- calls are events; `run` says whether they panic, and what the current process is after `syscall`
-- and after `yield`, in which others may kill it. `cpu0`: this is processor 0. What trapasm.S does
-- after `trap`, the pass over the signals among it, is not part of it.
pub mod Alive
mod Tests
use os.Base.{
  ℕ, ◌+◌, ◌%◌, Bool, true, false, not, ◌&&◌, ◌||◌, Option, none, some, List, [], ◌∷◌, ◌++◌, ◌==◌,
  if◌then◌else◌,
}
use os.Base.Result.{Result, ok, panic, fault, ◌>>=◌, ◌>>◌}
use os.Machine.{TrapFrame}
use os.Proc.{Proc}
use os.Proc.Fork.{is_running}

-- traps.h
abbrev pub t_syscall : ℕ
t_syscall = 64

abbrev pub t_irq0 : ℕ
t_irq0 = 32

abbrev pub irq_timer : ℕ
irq_timer = 0

abbrev pub irq_kbd : ℕ
irq_kbd = 1

abbrev pub irq_com1 : ℕ
irq_com1 = 4

abbrev pub irq_ide : ℕ
irq_ide = 14

abbrev pub irq_spurious : ℕ
irq_spurious = 31

pub data Event : Type 0 where
  syscalls ticks eoi ide keyboard serial spurious complains yields : Event

-- The routines that `trap` calls, each of which may panic: `call` is that of an event that leaves the
-- current process as it is. What the current process is after a call of `syscall`, if it returns,
-- and after one of `yield`.
pub record Run : Type 0 where
  pub call : Event → Result (Unit {0})
  pub syscall : Proc → Result (Option Proc)
  pub yield : Proc → Result Proc

-- Whether `trap` returns, with the process, or calls `exit`, which does not return.
pub data End : Type 0 where
  returns : Option Proc → End
  exits : End

-- `(tf->cs&3) == DPL_USER`, and `(tf->cs&3) == 0`
abbrev pub from_user : TrapFrame → Bool
from_user tf = tf.cs % 4 == 3

abbrev pub from_kernel : TrapFrame → Bool
from_kernel tf = tf.cs % 4 == 0

-- A killed process that was in user space exits.
unfoldable pub check_killed : TrapFrame → Option Proc → End
check_killed tf none = returns none
check_killed tf (some p) = if p.killed && from_user tf then exits else returns (some p)

-- The second test for a killed process, of the branch of a system call.
unfoldable pub after_syscall : Option Proc → End
after_syscall none = exits
after_syscall (some p) = if p.killed then exits else returns (some p)

module _ (run : Run) where
  pub call_all : List Event → Result (Unit {0})
  call_all [] = ok tt
  call_all (e ∷ events) = run.call e >> call_all events

  -- The calls of a case of the `switch`.
  unfoldable pub calls : List Event → Option Proc → Result (List Event × Option Proc)
  unfolding call_all
  calls events p = do call_all events; ok (events, p)

  -- The `default` case: the process is killed.
  unfoldable pub unexpected : TrapFrame → Option Proc → Result (List Event × Option Proc)
  unfolding calls
  unexpected tf none = run.call complains >> panic "trap"
  unexpected tf (some p) =
      if from_kernel tf
      then run.call complains >> panic "trap"
      else calls (complains ∷ []) (some (record p { killed = true }))

  -- The `switch`.
  unfoldable pub switch_trapno : Bool → TrapFrame → Option Proc → Result (List Event × Option Proc)
  unfolding unexpected
  switch_trapno cpu0 tf p =
      if tf.trapno == t_irq0 + irq_timer
      then calls (if cpu0 then ticks ∷ eoi ∷ [] else eoi ∷ []) p
      else if tf.trapno == t_irq0 + irq_ide
      then calls (ide ∷ eoi ∷ []) p
      else if tf.trapno == t_irq0 + irq_ide + 1
      then calls [] p
      else if tf.trapno == t_irq0 + irq_kbd
      then calls (keyboard ∷ eoi ∷ []) p
      else if tf.trapno == t_irq0 + irq_com1
      then calls (serial ∷ eoi ∷ []) p
      else if tf.trapno == t_irq0 + 7 || tf.trapno == t_irq0 + irq_spurious
      then calls (spurious ∷ eoi ∷ []) p
      else unexpected tf p

  -- The process gives up the processor on a clock tick.
  unfoldable pub on_tick : TrapFrame → Proc → Result (List Event × Proc)
  on_tick tf p =
      if is_running p.state && tf.trapno == t_irq0 + irq_timer
      then (do q ← run.yield p; ok (yields ∷ [], q))
      else ok ([], p)

  -- From the first test for a killed process on.
  unfoldable pub finish : TrapFrame → Option Proc → Result (List Event × End)
  unfolding on_tick check_killed
  finish tf none = ok ([], returns none)
  finish tf (some p) =
      if p.killed && from_user tf
      then ok ([], exits)
      else (do (events, q) ← on_tick tf p; ok (events, check_killed tf (some q)))

  -- The branch of a system call.
  unfoldable pub trap_syscall : TrapFrame → Option Proc → Result (List Event × End)
  unfolding after_syscall
  trap_syscall tf none = fault
  trap_syscall tf (some p) =
      if p.killed
      then ok ([], exits)
      else (do q ← run.syscall (record p { tf = tf }); ok (syscalls ∷ [], after_syscall q))

  unfoldable pub trap : Bool → TrapFrame → Option Proc → Result (List Event × End)
  unfolding switch_trapno finish trap_syscall
  trap cpu0 tf p = if tf.trapno == t_syscall then trap_syscall tf p else (do
    (events, q) ← switch_trapno cpu0 tf p
    (more, end) ← finish tf q
    ok (events ++ more, end))
