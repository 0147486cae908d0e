-- ===== src/Fs.antt =====
-- fs.c and fs.h: the file system on top of the log. A block is a function from byte offsets to
-- bytes, as `bread` gives it; `log_write` of a changed buffer is the write to `blocks` (what becomes
-- of it on the disk is in Log). One device and one process at a time: sleep locks are taken at once,
-- and a routine runs from its call to its return.
pub mod Bitmap
pub mod Inodes
pub mod Path
pub mod Content
mod Tests
use os.Base.{
  ℕ, ◌+◌, ◌-◌, ◌*◌, ◌/◌, ◌%◌, Bool, true, false, List, ◌==◌, if◌then◌else◌, Option, none, some,
}
use os.Base.Result.{Result, ok, panic, fault}
use os.Machine.{Mem, load32, store32, store8}

-- The fields of `struct superblock` that the kernel reads.
pub record SuperBlock : Type 0 where
  pub size : ℕ
  pub ninodes : ℕ
  pub inodestart : ℕ
  pub bmapstart : ℕ

abbrev pub bsize : ℕ
bsize = 512

abbrev pub bpb : ℕ
bpb = bsize * 8

abbrev pub ndirect : ℕ
ndirect = 12

abbrev pub nindirect : ℕ
nindirect = 128

-- `struct inode`, an entry of the inode cache; one device, and locks left out
pub record Inode : Type 0 where
  pub inum : ℕ
  pub ref : ℕ
  pub valid : Bool
  pub type : ℕ
  pub major : ℕ
  pub minor : ℕ
  pub nlink : ℕ
  pub size : ℕ
  pub addrs : List ℕ

-- What the file system's routines work on: the blocks and the inode cache.
pub record Fs : Type 0 where
  pub blocks : ℕ → Mem
  pub icache : List Inode

-- A routine of the file system: a result and the state after it, a panic, or a fault.
abbrev pub M : Type 0 → Type 0
M A = Fs → Result (A × Fs)

abbrev pub pure : {A : Type 0} → A → M A
pure a s = ok (a, s)

abbrev pub halt : {A : Type 0} → Result (A × Fs) → M A
halt r s = r

abbrev pub then_run : {A B : Type 0} → (A → M B) → Result (A × Fs) → Result (B × Fs)
then_run f (ok (a, s)) = f a s
then_run f (panic message) = panic message
then_run f fault = fault

infixl 5 ◌>>=◌ ◌>>◌
abbrev pub ◌>>=◌ : {A B : Type 0} → M A → (A → M B) → M B
◌>>=◌ m f s = then_run f (m s)

abbrev pub ◌>>◌ : {A B : Type 0} → M A → M B → M B
◌>>◌ m k s = then_run (λ a. k) (m s)

abbrev pub put_block : (ℕ → Mem) → ℕ → Mem → ℕ → Mem
put_block d b v x = if x == b then v else d x

-- `bread` of a block, and `log_write` of its changed buffer
abbrev pub bread : ℕ → M Mem
bread b s = ok (s.blocks b, s)

abbrev pub log_block : ℕ → Mem → M (Unit {0})
log_block b v s = ok (tt, record s { blocks = put_block s.blocks b v })
