-- ===== src/Fs/Tests.antt =====
-- A small file system.
use os.Base.{
  ℕ, zero, suc, ◌+◌, ◌/◌, ◌%◌, ◌^◌, ◌≤◌, ◌<◌, ◌≡◌, ◌≢◌, ◌⊎◌, inl, inr, refl, true, false, Option,
  none, some, [], ◌∷◌, ◌==◌, if◌then◌else◌, replicate, arith,
}
use os.Base.Result.{ok, panic}
use os.Machine.{Mem, store_words}
use os.Machine.Memory.{AreWords}
use os.Fs.{SuperBlock, Inode, Fs, bsize, put_block}
use os.Fs.Bitmap.{balloc, bblock}
use os.Fs.Bitmap.Alloc.{block_is_free, MapInUse, KeepsOthers, balloc_lem}
use os.Fs.Inodes.{scan_cache, get_inode, dinode_words, iget, iupdate, ilock}
use os.Fs.Inodes.Cache.{IsOnce, iget-IsOnce}
use os.Fs.Inodes.Stored.{IsInode, ilock-iupdate}
use os.Fs.Content.{Device, slice, readi}
use os.Fs.Content.Read.{HasBlock, content, available, readi_lem}

-- Block 58 is the bitmap, in which the first 100 blocks are in use.
abbrev super_block : SuperBlock
super_block = record { size = 1000; ninodes = 200; inodestart = 32; bmapstart = 58 }

abbrev blocks : ℕ → Mem
blocks b x = if b == 58 then (if x == 12 then 15 else 255) else x % 256

-- A file of 20 bytes in block 70.
abbrev file : Inode
file = record {
  inum = 5;
  ref = 1;
  valid = true;
  type = 2;
  major = 0;
  minor = 0;
  nlink = 1;
  size = 20;
  addrs = 70 ∷ replicate 12 0;
}

abbrev free_entry : Inode
free_entry = record {
  inum = 0;
  ref = 0;
  valid = false;
  type = 0;
  major = 0;
  minor = 0;
  nlink = 0;
  size = 0;
  addrs = replicate 13 0;
}

abbrev disk : Fs
disk = record { blocks = blocks; icache = file ∷ free_entry ∷ [] }

abbrev devsw : ℕ → Option Device
devsw major = none

in_block : (x : ℕ) → 15 ≤ x → x < 15 + available 20 15 10 → HasBlock disk file (x / bsize)
in_block x from to =
    let e : x / 512 ≡ 0 = omega arith in
    rw (HasBlock, e) (omega arith, omega arith, λ far. omega arith)

readi_lem_example :
    (20 < 15 ⊎ 2 ^ 32 ≤ 15 + 10 → readi super_block devsw 0 15 10 disk ≡ ok (none, disk))
    × (15 ≤ 20
        → 15 + 10 < 2 ^ 32
        → readi super_block devsw 0 15 10 disk
          ≡ ok (some (slice (content disk file) 15 (available 20 15 10)), disk))
readi_lem_example =
    readi_lem super_block devsw disk 0 15 10 file refl (omega arith) (omega arith) (omega arith)
      in_block

disk-MapInUse : MapInUse super_block disk.blocks
disk-MapInUse c small = let e : c / 4096 ≡ 0 = omega arith in rw (bblock, e) refl

balloc_lem_example :
    (((c : ℕ) → c < 1000 → block_is_free super_block disk.blocks c ≡ false)
      × (balloc super_block disk ≡ panic "balloc: out of blocks"))
    ⊎ ((b : ℕ) × (s' : Fs) × (balloc super_block disk ≡ ok (b, s'))
        × (b < 1000)
        × (block_is_free super_block disk.blocks b ≡ true)
        × (block_is_free super_block s'.blocks b ≡ false)
        × KeepsOthers super_block disk.blocks s'.blocks b
        × ((x : ℕ) → s'.blocks b x ≡ 0)
        × ((x : ℕ) → x ≢ b → x ≢ bblock super_block b → s'.blocks x ≡ disk.blocks x))
balloc_lem_example = balloc_lem super_block disk disk-MapInUse

-- The second entry of the cache is taken for inode 7.
after_iget :
    iget 7 disk
    ≡ ok (1, record disk { icache = file ∷ record free_entry { inum = 7; ref = 1 } ∷ [] })
unfolding iget scan_cache get_inode
after_iget = refl

iget-IsOnce_example : IsOnce (file ∷ record free_entry { inum = 7; ref = 1 } ∷ [])
iget-IsOnce_example =
    iget-IsOnce 7 disk 1
      (record disk { icache = file ∷ record free_entry { inum = 7; ref = 1 } ∷ [] })
      (inr (refl, tt), (inl refl, tt)) after_iget

zeros-AreWords : (n : ℕ) → AreWords (replicate n 0)
zeros-AreWords zero = tt
zeros-AreWords (suc n) = (omega arith, zeros-AreWords n)

file-IsInode : IsInode file
file-IsInode = record {
  type_fits = omega arith;
  major_fits = omega arith;
  minor_fits = omega arith;
  nlink_fits = omega arith;
  size_fits = omega arith;
  addrs_fit = (omega arith, zeros-AreWords 12);
  addrs_count = refl;
}

-- The inode is written, and read back from an entry that has forgotten it.
abbrev updated : ℕ → Mem
updated = put_block blocks 32 (store_words (blocks 32) 320 (dinode_words file))

abbrev stale : Inode
stale = record free_entry { inum = 5; ref = 1 }

after_iupdate : iupdate super_block 0 disk ≡ ok (tt, record disk { blocks = updated })
unfolding iupdate get_inode
after_iupdate = refl

ilock-iupdate_example :
    ilock super_block 1 (record { blocks = updated; icache = file ∷ stale ∷ [] })
    ≡ ok (
      tt,
      record {
        blocks = updated;
        icache = file ∷ record file { inum = 5; ref = 1; valid = true } ∷ [];
      },
    )
ilock-iupdate_example =
    ilock-iupdate super_block disk (record disk { blocks = updated })
      (record { blocks = updated; icache = file ∷ stale ∷ [] }) 0 1 file stale refl file-IsInode
      (omega arith) after_iupdate refl refl refl refl (omega arith)
