-- ===== src/Lock.antt =====
-- spinlock.c: a spin lock as the processors see it. A processor is its number; its `struct cpu` has
-- the fields that the locks use, and the interrupt flag of its `eflags`. `acquire` spins until the
-- exchange finds the lock free: one attempt is a step. The stack trace `pcs` is left out.
-- sleeplock.c: a sleep lock, with each routine's section under the inner lock as one step.
pub mod Nesting
pub mod Exclusion
mod Tests
use os.Base.{
  ℕ, zero, suc, ◌+◌, ◌-◌, Bool, true, false, not, ◌&&◌, Option, none, some, List, ◌==◌,
  if◌then◌else◌, get_elem?, set,
}
use os.Base.Result.{Result, ok, panic, fault, ◌>>=◌, ◌>>◌, panic_if}

-- `flag` is FL_IF of the processor's eflags: interrupts are on.
pub record Cpu : Type 0 where
  pub ncli : ℕ
  pub intena : Bool
  pub flag : Bool

pub record Spinlock : Type 0 where
  pub locked : Bool
  pub cpu : Option ℕ

abbrev pub initlock : Spinlock
initlock = record { locked = false; cpu = none }

unfoldable pub pushcli : Cpu → Cpu
pushcli c = record {
  ncli = c.ncli + 1;
  intena = if c.ncli == 0 then c.flag else c.intena;
  flag = false;
}

-- `--ncli < 0` is a count of 0 before.
unfoldable pub popcli : Cpu → Result Cpu
popcli c =
    if c.flag
    then panic "popcli - interruptible"
    else if c.ncli == 0
    then panic "popcli"
    else ok (record c {
      ncli = c.ncli - 1;
      flag = if c.ncli - 1 == 0 && c.intena then true else c.flag;
    })

abbrev pub is_cpu : ℕ → Option ℕ → Bool
is_cpu i none = false
is_cpu i (some j) = j == i

-- The answer, and the processor after the inner `pushcli` and `popcli`.
unfoldable pub holding : ℕ → Spinlock → Cpu → Result (Bool × Cpu)
unfolding pushcli popcli
holding i lk c = do c' ← popcli (pushcli c); ok (lk.locked && is_cpu i lk.cpu, c')

-- What an attempt to acquire comes to: the lock is taken, or the processor spins.
pub data Attempt : Type 0 where
  taken : Spinlock → Attempt
  spins : Attempt

unfoldable pub acquire : ℕ → Spinlock → Cpu → Result (Attempt × Cpu)
unfolding pushcli holding
acquire i lk c = do
  (held, c1) ← holding i lk (pushcli c)
  panic_if held "acquire"
  if lk.locked then ok (spins, c1) else ok (taken (record { locked = true; cpu = some i }), c1)

unfoldable pub release : ℕ → Spinlock → Cpu → Result (Spinlock × Cpu)
unfolding holding popcli
release i lk c = do
  (held, c1) ← holding i lk c
  panic_if (not held) "release"
  c2 ← popcli c1
  ok (record { locked = false; cpu = none }, c2)

-- `pid` is 0 when no one holds the lock.
pub record Sleeplock : Type 0 where
  pub locked : Bool
  pub pid : ℕ

abbrev pub initsleeplock : Sleeplock
initsleeplock = record { locked = false; pid = 0 }

-- One round of `acquiresleep` by the process `pid`; none if it goes to sleep on the lock.
unfoldable pub acquiresleep : ℕ → Sleeplock → Option Sleeplock
acquiresleep pid lk = if lk.locked then none else some (record { locked = true; pid = pid })

-- Who sleeps on the lock is woken.
unfoldable pub releasesleep : Sleeplock → Sleeplock
releasesleep lk = record { locked = false; pid = 0 }

unfoldable pub holdingsleep : ℕ → Sleeplock → Bool
holdingsleep pid lk = lk.locked && lk.pid == pid
