-- ===== src/Proc/Fork/Tests.antt =====
-- A `fork`, and a sleep, of a sample process.
use os.Base.{ℕ, ◌+◌, ◌≡◌, ◌≢◌, refl, true, false, none, some, [], ◌∷◌, get_elem?}
use os.Base.Int.{pos}
use os.Base.Result.{ok}
use os.Kalloc.{Kmem, kalloc}
use os.Fs.{Inode}
use os.Fs.Inodes.{get_inode, idup}
use os.File.{File, fd_inode, filedup}
use os.Proc.{Proc, unused}
use os.Proc.Sample.{user_frame, user_proc}
use os.Proc.Table.{allocproc, find_unused, fresh_proc}
use os.Proc.Fork.{System, copy_name, child_of, dup_files, fork_copied, fork_into, fork_at, fork}
use os.Proc.Fork.Child.{IsChild, fork_lem}

abbrev kend : ℕ
kend = 0x80100000

abbrev page : ℕ
page = 0x80200000

abbrev forking : Proc
forking = record user_proc {
  ofile = some 0 ∷ none ∷ [];
  cwd = some 0;
  name = 115 ∷ 104 ∷ 0 ∷ 0 ∷ [];
}

abbrev free_proc : Proc
free_proc = record user_proc {
  pid = 0;
  state = unused;
  kstack = 0;
  ofile = none ∷ none ∷ [];
  name = 0 ∷ 0 ∷ 0 ∷ 0 ∷ [];
}

abbrev open_file : ℕ → File
open_file ref = record {
  type = fd_inode;
  ref = ref;
  readable = true;
  writable = true;
  pipe = 0;
  ip = 0;
  off = 0;
}

abbrev directory : ℕ → Inode
directory ref = record {
  inum = 1;
  ref = ref;
  valid = false;
  type = 1;
  major = 0;
  minor = 0;
  nlink = 1;
  size = 0;
  addrs = [];
}

abbrev before : System
before = record {
  table = record { procs = forking ∷ free_proc ∷ []; nextpid = 4 };
  kmem = record { freelist = page ∷ [] };
  files = open_file 1 ∷ [];
  fs = record { blocks = λ b x. 0; icache = directory 1 ∷ [] };
}

abbrev copyuvm : ℕ → ℕ → Kmem → ℕ × Kmem
copyuvm pgdir sz k = (pgdir + 4096, k)

abbrev child : Proc
child = child_of 0 forking 12288 (fresh_proc 4 page user_frame free_proc)

abbrev after : System
after = record {
  table = record { procs = forking ∷ child ∷ []; nextpid = 5 };
  kmem = record { freelist = [] };
  files = open_file 2 ∷ [];
  fs = record { blocks = λ b x. 0; icache = directory 2 ∷ [] };
}

run : fork kend copyuvm user_frame 0 forking before ≡ ok (pos 4, after)
unfolding fork fork_at fork_into fork_copied child_of copy_name dup_files filedup idup get_inode
    allocproc find_unused fresh_proc kalloc
run = refl

fork_lem_example :
    (◌≡◌ {A = ℕ} 4 before.table.nextpid)
    × ((i : ℕ) × (old : Proc) × (c : Proc) × (get_elem? before.table.procs i ≡ some old)
        × (get_elem? after.table.procs i ≡ some c)
        × IsChild 0 4 forking old c
        × ((j : ℕ) → i ≢ j → get_elem? after.table.procs j ≡ get_elem? before.table.procs j))
fork_lem_example = fork_lem kend copyuvm user_frame 0 4 forking before after run
