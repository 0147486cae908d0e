-- ===== src/Proc/Exit/Tests.antt =====
-- A process with one file in two descriptors.
use os.Base.{◌≡◌, refl, true, some, none, [], ◌∷◌, set, replicate, arith}
use os.Base.Result.{ok}
use os.Fs.{SuperBlock, Inode, Fs}
use os.Fs.Inodes.{idup, get_inode}
use os.File.{File, Files, fd_inode, filedup}
use os.Proc.{Proc}
use os.Proc.Sample.{user_proc}
use os.Proc.Table.{exit_table}
use os.Proc.Fork.{dup_files, dup_cwd}
use os.Proc.Exit.{closed, exit}
use os.Proc.Exit.References.{exit-fork_references}

abbrev super_block : SuperBlock
super_block = record { size = 1000; ninodes = 200; inodestart = 32; bmapstart = 58 }

abbrev root : Inode
root = record {
  inum = 1;
  ref = 1;
  valid = true;
  type = 1;
  major = 0;
  minor = 0;
  nlink = 1;
  size = 512;
  addrs = replicate 13 0;
}

abbrev open_file : File
open_file = record {
  type = fd_inode;
  ref = 2;
  readable = true;
  writable = true;
  pipe = 0;
  ip = 0;
  off = 0;
}

abbrev leaving : Proc
leaving = record user_proc { ofile = some 0 ∷ none ∷ some 0 ∷ []; cwd = some 0 }

abbrev world : Files
world = record {
  files = open_file ∷ [];
  pipes = [];
  fs = record { blocks = λ b x. 0; icache = root ∷ [] };
}

dupped : dup_files leaving.ofile world.files ≡ ok (record open_file { ref = 4 } ∷ [])
unfolding dup_files filedup
dupped = refl

abbrev held_twice : Fs
held_twice = record (world.fs) { icache = record root { ref = 2 } ∷ [] }

dir : dup_cwd leaving.cwd world.fs ≡ ok held_twice
unfolding idup get_inode
dir = refl

exit-fork_references_example :
    exit super_block 1 0 leaving
      (user_proc ∷ leaving ∷ [])
      (record world { files = record open_file { ref = 4 } ∷ []; fs = held_twice })
    ≡ ok
        (exit_table 1 0 (closed leaving) (set (user_proc ∷ leaving ∷ []) 1 (closed leaving)), world)
exit-fork_references_example =
    exit-fork_references super_block 1 0 0 leaving (user_proc ∷ leaving ∷ []) world
      (record open_file { ref = 4 } ∷ []) held_twice root (λ e. omega arith) refl refl (omega arith)
      dupped dir
