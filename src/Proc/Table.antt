-- ===== src/Proc/Table.antt =====
-- proc.c: the process table. `allocproc`, `wakeup1`, one round of `wait`, and the part of `exit`
-- under `ptable.lock`. Each is one critical section, so it runs as one step, but for `allocproc`:
-- the code gives up the lock once the entry is EMBRYO, and draws and stores the pid after. What is
-- defined here is a call of it that no other comes between. `nextpid` does not wrap in the model; C
-- leaves the overflow of an `int` undefined.
pub mod Pids
pub mod Alloc
pub mod Wakeup
pub mod Wait
pub mod Exit
pub mod Awake
pub mod Stale
mod Tests
use os.Base.{
  ℕ, zero, suc, ◌+◌, Bool, true, false, ◌&&◌, ◌||◌, not, Option, none, some, List, [], ◌∷◌, ◌==◌,
  if◌then◌else◌, map, get_elem?, set, replicate, length,
}
use os.Base.Int.{ℤ, pos, minus_one}
use os.Base.Result.{Result, ok, panic, fault, ◌>>=◌, ◌>>◌, panic_if}
use os.Machine.{TrapFrame}
use os.Kalloc.{Kmem, kalloc, kfree}
use os.Proc.{
  Proc, ProcState, unused, embryo, sleeping, runnable, zombie, is_unused, is_sleeping, is_zombie,
  Chan, null, of_proc, chan_eq, sig_dfl, nsig,
}

-- `ptable` and `nextpid`
pub record PTable : Type 0 where
  pub procs : List Proc
  pub nextpid : ℕ

-- A position found in the tail of a list, in the list.
abbrev pub shift : Option (ℕ × Proc) → Option (ℕ × Proc)
shift none = none
shift (some (i, p)) = some (suc i, p)

-- The first UNUSED entry, with its index.
unfoldable pub find_unused : List Proc → Option (ℕ × Proc)
find_unused [] = none
find_unused (p ∷ ps) =
    let later = shift (find_unused ps) in if is_unused p.state then some (0, p) else later

-- The entry once it has its pid and kernel stack. `junk` is what the new stack holds where the
-- trap frame will be.
unfoldable pub fresh_proc : ℕ → ℕ → TrapFrame → Proc → Proc
fresh_proc pid kstack junk p = record p {
  state = embryo;
  pid = pid;
  kstack = kstack;
  tf = junk;
  signal_handlers = replicate nsig sig_dfl;
  pending_signals = 0;
}

-- The result is the index of the new process. Without a page for the stack the entry is given
-- back, with the pid that it got.
unfoldable pub allocproc : TrapFrame → PTable → Kmem → Option ℕ × PTable × Kmem
unfolding find_unused fresh_proc
allocproc junk t k = elim (find_unused t.procs) [
  | none ↦ (none, t, k)
  | some (i, p) ↦
      let (page, k') = kalloc k in
      let failed : Proc = record p { state = unused; pid = t.nextpid; kstack = 0 } in
      if page == 0
      then (none, record { procs = set t.procs i failed; nextpid = t.nextpid + 1 }, k')
      else (
        some i,
        record {
          procs = set t.procs i (fresh_proc t.nextpid page junk p);
          nextpid = t.nextpid + 1;
        },
        k',
      )
]

-- A sleeper on `chan` becomes RUNNABLE.
unfoldable pub wake : Chan → Proc → Proc
wake chan p =
    if is_sleeping p.state && chan_eq p.chan chan then record p { state = runnable } else p

unfoldable pub wakeup1 : Chan → List Proc → List Proc
unfolding wake
wakeup1 chan procs = map (wake chan) procs

abbrev pub is_parent : ℕ → Option ℕ → Bool
is_parent i none = false
is_parent i (some j) = j == i

-- The scan of `wait`: whether there are children, and the first ZOMBIE one with its index. It
-- stops there, so later children do not count.
unfoldable pub scan_children : ℕ → List Proc → Bool × Option (ℕ × Proc)
scan_children cur [] = (false, none)
scan_children cur (p ∷ ps) =
    let (kids, later) = scan_children cur ps in
    if is_parent cur p.parent
    then if is_zombie p.state then (true, some (0, p)) else (true, shift later)
    else (kids, shift later)

-- What `wait` leaves of the child.
unfoldable pub reaped : Proc → Proc
reaped p = record p {
  kstack = 0;
  pid = 0;
  parent = none;
  name = set p.name 0 0;
  killed = false;
  state = unused;
}

-- One round of the loop of `wait`: it returns a pid or -1, or goes to sleep.
pub data Waited : Type 0 where
  returns : ℤ → Waited
  sleeps : Waited

-- vm.c's `freevm` is an argument: it frees a page directory and may panic.
module _ (kend : ℕ) (freevm : ℕ → Kmem → Result Kmem) where
  unfoldable pub wait_round : ℕ → Proc → List Proc → Kmem → Result (Waited × List Proc × Kmem)
  unfolding scan_children reaped
  wait_round cur curproc procs k =
      let (kids, found) = scan_children cur procs in
      elim found [
        | some (i, p) ↦ do
          k1 ← kfree kend p.kstack k
          k2 ← freevm p.pgdir k1
          ok (returns (pos p.pid), set procs i (reaped p), k2)
        | none ↦
            if not kids || curproc.killed
            then ok (returns minus_one, procs, k)
            else ok
                (sleeps, set procs cur (record curproc { chan = of_proc cur; state = sleeping }), k)
      ]

-- The channel that a process sleeps on in `wait`; null for no process.
abbrev pub chan_of : Option ℕ → Chan
chan_of none = null
chan_of (some i) = of_proc i

-- One round of the loop of `exit` that passes children to init.
pub reparent_one : ℕ → ℕ → ℕ → List Proc → List Proc
unfolding wakeup1
reparent_one cur initproc i procs = elim (get_elem? procs i) [
  | none ↦ procs
  | some p ↦
      let ps = set procs i (record p { parent = some initproc }) in
      if is_parent cur p.parent
      then if is_zombie p.state then wakeup1 (of_proc initproc) ps else ps
      else procs
]

pub reparent : ℕ → ℕ → ℕ → ℕ → List Proc → List Proc
reparent cur initproc zero i procs = procs
reparent cur initproc (suc n) i procs =
    reparent cur initproc n (i + 1) (reparent_one cur initproc i procs)

-- `exit` from `wakeup1(curproc->parent)` to the call of `sched`.
unfoldable pub exit_table : ℕ → ℕ → Proc → List Proc → List Proc
unfolding wakeup1 reparent reparent_one
exit_table cur initproc curproc procs =
    let ps = reparent cur initproc (length procs) 0 (wakeup1 (chan_of curproc.parent) procs) in
    elim (get_elem? ps cur) [ none ↦ ps | some p ↦ set ps cur (record p { state = zombie }) ]
