-- ===== src/File/Tests.antt =====
-- A table of open files.
use os.Base.{◌≡◌, refl, true, false, [], ◌∷◌}
use os.Base.Result.{ok}
use os.Fs.{SuperBlock}
use os.File.{File, Files, fd_none, fd_inode, filedup}

abbrev super_block : SuperBlock
super_block = record { size = 1000; ninodes = 200; inodestart = 32; bmapstart = 58 }

abbrev open_file : File
open_file = record {
  type = fd_inode;
  ref = 1;
  readable = true;
  writable = true;
  pipe = 0;
  ip = 0;
  off = 0;
}

abbrev unused_file : File
unused_file = record {
  type = fd_none;
  ref = 0;
  readable = false;
  writable = false;
  pipe = 0;
  ip = 0;
  off = 0;
}

abbrev world : Files
world = record {
  files = open_file ∷ unused_file ∷ [];
  pipes = [];
  fs = record { blocks = λ b x. 0; icache = [] };
}

dup : filedup 0 world.files ≡ ok (record open_file { ref = 2 } ∷ unused_file ∷ [])
unfolding filedup
dup = refl
