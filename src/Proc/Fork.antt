-- ===== src/Proc/Fork.antt =====
-- proc.c: `fork`, and the sections of `sleep`, `wakeup` and `yield` under `ptable.lock`. vm.c's
-- `copyuvm` is an argument: it copies an address space of the given size into a new page directory,
-- with pages of `kalloc`, and gives 0 if there are not enough. A current directory is an index of the
-- inode cache.
pub mod Child
pub mod Sleeping
mod Tests
use os.Base.{
  ℕ, zero, suc, ◌+◌, Bool, true, false, ◌&&◌, Option, none, some, List, [], ◌∷◌, ◌==◌,
  if◌then◌else◌, get_elem?, set,
}
use os.Base.Int.{ℤ, pos, minus_one}
use os.Base.Result.{Result, ok, panic, fault, ◌>>=◌, ◌>>◌, panic_if}
use os.Machine.{TrapFrame}
use os.Kalloc.{Kmem, kalloc, kfree}
use os.Fs.{Fs}
use os.Fs.Inodes.{idup}
use os.File.{File, filedup}
use os.Proc.{Proc, ProcState, unused, runnable, running, sleeping, Chan, null}
use os.Proc.Table.{PTable, allocproc, wakeup1}

-- What `fork` works on.
pub record System : Type 0 where
  pub table : PTable
  pub kmem : Kmem
  pub files : List File
  pub fs : Fs

-- The loop over the open files: each gets a reference more.
unfoldable pub dup_files : List (Option ℕ) → List File → Result (List File)
dup_files [] files = ok files
dup_files (none ∷ ofile) files = dup_files ofile files
dup_files (some f ∷ ofile) files = do files' ← filedup f files; dup_files ofile files'

abbrev pub dup_cwd : Option ℕ → Fs → Result Fs
dup_cwd none fs = fault
dup_cwd (some ip) fs = do (ip', fs') ← idup ip fs; ok fs'

-- Where the parent has no file the entry keeps what it held.
abbrev inherit : List (Option ℕ) → List (Option ℕ) → List (Option ℕ)
inherit [] old = old
inherit (f ∷ fs) [] = []
inherit (none ∷ fs) (g ∷ gs) = g ∷ inherit fs gs
inherit (some f ∷ fs) (g ∷ gs) = some f ∷ inherit fs gs

-- `safestrcpy` on names, with `n` bytes that it may copy before the last NUL. After a NUL in `src`
-- it writes one more.
unfoldable pub copy_name : ℕ → List ℕ → List ℕ → List ℕ
copy_name n [] src = []
copy_name zero (d ∷ ds) src = 0 ∷ ds
copy_name (suc n) (d ∷ ds) [] = d ∷ ds
copy_name (suc n) (d ∷ ds) (c ∷ cs) =
    let rest : List ℕ = copy_name n ds cs in if c == 0 then 0 ∷ set ds 0 0 else c ∷ rest

-- The child of `curproc`, with the index `cur`, in the entry `np` of `allocproc`.
pub child_of : ℕ → Proc → ℕ → Proc → Proc
unfolding copy_name
child_of cur curproc pgdir np = record np {
  signal_mask = curproc.signal_mask;
  signal_handlers = curproc.signal_handlers;
  pgdir = pgdir;
  sz = curproc.sz;
  parent = some cur;
  tf = record (curproc.tf) { eax = 0 };
  ofile = inherit curproc.ofile np.ofile;
  cwd = curproc.cwd;
  name = copy_name 15 np.name curproc.name;
  state = runnable;
}

abbrev pub put_proc : ℕ → Proc → PTable → PTable
put_proc i p t = record t { procs = set t.procs i p }

module _ (kend : ℕ) (copyuvm : ℕ → ℕ → Kmem → ℕ × Kmem) where
  -- Without an address space for the child its entry `i` and stack are given back.
  pub fork_failed : Proc → ℕ → Proc → System → Result (ℤ × System)
  fork_failed curproc i np s = do
    k' ← kfree kend np.kstack s.kmem
    let given_up : Proc = record np {
      signal_mask = curproc.signal_mask;
      signal_handlers = curproc.signal_handlers;
      pgdir = 0;
      kstack = 0;
      state = unused;
    }
    ok (minus_one, record s { table = put_proc i given_up s.table; kmem = k' })

  -- The rest of `fork` with the child's address space.
  pub fork_copied : ℕ → Proc → ℕ → ℕ → Proc → System → Result (ℤ × System)
  unfolding child_of dup_files
  fork_copied cur curproc pgdir i np s = do
    files' ← dup_files curproc.ofile s.files
    fs' ← dup_cwd curproc.cwd s.fs
    ok (
      pos np.pid,
      record s {
        table = put_proc i (child_of cur curproc pgdir np) s.table;
        files = files';
        fs = fs';
      },
    )

  -- `fork` once `allocproc` has given the entry `i`.
  pub fork_into : ℕ → Proc → ℕ → Proc → System → Result (ℤ × System)
  unfolding fork_failed fork_copied
  fork_into cur curproc i np s =
      let (pgdir, k) = copyuvm curproc.pgdir curproc.sz s.kmem in
      if pgdir == 0
      then fork_failed curproc i np (record s { kmem = k })
      else fork_copied cur curproc pgdir i np (record s { kmem = k })

  pub fork_at : ℕ → Proc → Option ℕ → System → Result (ℤ × System)
  unfolding fork_into
  fork_at cur curproc none s = ok (minus_one, s)
  fork_at cur curproc (some i) s = elim (get_elem? s.table.procs i) [
    | none ↦ fault
    | some np ↦ fork_into cur curproc i np s
  ]

  -- The result is the child's pid, or -1. `curproc` is the calling process, at the index `cur`.
  unfoldable pub fork : TrapFrame → ℕ → Proc → System → Result (ℤ × System)
  unfolding allocproc fork_at
  fork junk cur curproc s =
      let (slot, t, k) = allocproc junk s.table s.kmem in
      fork_at cur curproc slot (record s { table = t; kmem = k })

-- What `sched` demands of the process that calls it.
abbrev pub is_running : ProcState → Bool
is_running running = true
is_running _ = false

unfoldable pub sched : ℕ → List Proc → Result (List Proc)
sched cur procs = elim (get_elem? procs cur) [
  | none ↦ fault
  | some p ↦ if is_running p.state then panic "sched running" else ok procs
]

-- `sleep` up to the switch in `sched`: the table while the process sleeps.
unfoldable pub sleep_entry : ℕ → Chan → List Proc → Result (List Proc)
unfolding sched
sleep_entry cur chan procs = elim (get_elem? procs cur) [
  | none ↦ panic "sleep"
  | some p ↦ sched cur (set procs cur (record p { chan = chan; state = sleeping }))
]

-- `sleep` from the switch back on.
unfoldable pub sleep_exit : ℕ → List Proc → Result (List Proc)
sleep_exit cur procs = elim (get_elem? procs cur) [
  | none ↦ fault
  | some p ↦ ok (set procs cur (record p { chan = null }))
]

unfoldable pub wakeup : Chan → List Proc → List Proc
unfolding wakeup1
wakeup chan procs = wakeup1 chan procs

-- `yield` up to the switch.
unfoldable pub yield : ℕ → List Proc → Result (List Proc)
unfolding sched
yield cur procs = elim (get_elem? procs cur) [
  | none ↦ fault
  | some p ↦ sched cur (set procs cur (record p { state = runnable }))
]
