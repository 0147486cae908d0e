-- ===== src/Sysfile/Tests.antt =====
-- A process that opens the root directory, duplicates the descriptor and closes it.
use os.Base.{ℕ, ◌≡◌, refl, true, false, Option, none, some, [], ◌∷◌, get_elem?, replicate, arith}
use os.Base.Int.{pos}
use os.Base.Result.{ok}
use os.Machine.{Mem, load32, store32, store_words, store_bytes}
use os.Proc.Sample.{user_frame, user_proc, zero_mem}
use os.Fs.{SuperBlock, Inode}
use os.Fs.Content.{Device, t_dir}
use os.Fs.Inodes.{ilock, iget, get_inode}
use os.Fs.Path.{skipelem}
use os.File.{fd_none, fd_inode, File}
use os.Syscall.{argint}
use os.Sysfile.{Sys, sys_dup, sys_close}
use os.Sysfile.Calls.{sys_open}
use os.Sysfile.Descriptors.{sys_close-sys_dup}
use os.Sysfile.Open.{sys_open-Safe}

abbrev super_block : SuperBlock
super_block = record { size = 1000; ninodes = 200; inodestart = 32; bmapstart = 58 }

abbrev no_devices : ℕ → Option Device
no_devices major = none

abbrev root : Inode
root = record {
  inum = 1;
  ref = 1;
  valid = true;
  type = t_dir;
  major = 0;
  minor = 0;
  nlink = 1;
  size = 512;
  addrs = replicate 13 0;
}

abbrev unused_file : File
unused_file = record {
  type = fd_none;
  ref = 0;
  readable = false;
  writable = false;
  pipe = 0;
  ip = 0;
  off = 0;
}

-- The arguments: the string "/" at 200, and the mode 0.
abbrev start : Sys
start = record {
  proc = record user_proc {
    tf = record user_frame { esp = 100 };
    ofile = replicate 16 none;
    cwd = some 0;
  };
  mem = store_bytes (store_words zero_mem 104 (200 ∷ 0 ∷ [])) 200 (b'/' ∷ 0 ∷ []);
  files = record {
    files = unused_file ∷ [];
    pipes = [];
    fs = record { blocks = λ b x. 0; icache = root ∷ [] };
  };
}

abbrev root_file : File
root_file = record unused_file { type = fd_inode; ref = 1; readable = true }

abbrev holding : Sys
holding = record start {
  proc = record (start.proc) { ofile = some 0 ∷ replicate 15 none };
  files = record (start.files) {
    files = root_file ∷ [];
    fs = record (start.files.fs) { icache = record root { ref = 2 } ∷ [] };
  };
}

open_root : sys_open super_block no_devices start ≡ ok (pos 0, holding)
unfolding sys_open store_bytes store_words load32 store32 iget get_inode skipelem ilock
open_root = refl

mode : argint 1 (start.proc, start.mem) ≡ some 0
unfolding argint store_bytes store_words load32 store32
mode = refl

sys_open-Safe_example :
    (a : ℕ) × (f : File) × (q : Inode) × (get_elem? holding.proc.ofile 0 ≡ some (some a))
    × (get_elem? holding.files.files a ≡ some f)
    × (f.type ≡ fd_inode)
    × (get_elem? holding.files.fs.icache f.ip ≡ some q)
    × (q.type ≡ t_dir → f.writable ≡ false)
sys_open-Safe_example = sys_open-Safe super_block no_devices start holding 0 0 mode refl open_root

-- `dup(0)`
abbrev dupping : Sys
dupping = record holding { mem = zero_mem }

abbrev dupped : Sys
dupped = record dupping {
  proc = record (dupping.proc) { ofile = some 0 ∷ some 0 ∷ replicate 14 none };
  files = record (dupping.files) { files = record root_file { ref = 2 } ∷ [] };
}

dup_root : sys_dup dupping ≡ ok (pos 1, dupped)
unfolding sys_dup load32
dup_root = refl

-- `close(1)`
abbrev close_mem : Mem
close_mem = store_words zero_mem 104 (1 ∷ [])

close_arg :
    argint 0 (record (dupped.proc) { tf = record user_frame { esp = 100 } }, close_mem) ≡ some 1
unfolding argint store_words load32 store32
close_arg = refl

sys_close-sys_dup_example :
    sys_close super_block (record dupped {
      proc = record (dupped.proc) { tf = record user_frame { esp = 100 } };
      mem = close_mem;
    })
    ≡ ok (
      pos 0,
      record dupping {
        proc = record (dupping.proc) { tf = record user_frame { esp = 100 } };
        mem = close_mem;
      },
    )
sys_close-sys_dup_example =
    sys_close-sys_dup super_block dupping dupped 1 (record user_frame { esp = 100 }) close_mem
      (omega arith) dup_root close_arg
