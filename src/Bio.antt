-- ===== src/Bio.antt =====
-- bio.c and buf.h: the buffer cache, and memide.c's `iderw`, the disk of the build that keeps the file
-- system in memory. The cache is the list of the buffers from `head.next` on, the most recently used
-- first; a `struct buf*` is the buffer's index in `bcache.buf`, its `id`. The list is walked under
-- `bcache.lock`, in one step.
pub mod Once
pub mod Shared
mod Tests
use os.Base.{
  ℕ, zero, suc, ◌+◌, ◌-◌, Bool, true, false, not, ◌&&◌, ◌||◌, Option, none, some, List, [], ◌∷◌,
  ◌++◌, ◌==◌, ltb, leb, if◌then◌else◌, map,
}
use os.Base.Result.{Result, ok, panic, fault, ◌>>=◌, ◌>>◌, panic_if}
use os.Machine.{Mem}
use os.Fs.{put_block}
use os.Lock.{Sleeplock, initsleeplock, acquiresleep, releasesleep, holdingsleep}

-- `valid` and `dirty` are the flags B_VALID and B_DIRTY; `bytes` is the array `data`.
pub record Buf : Type 0 where
  pub id : ℕ
  pub dev : ℕ
  pub blockno : ℕ
  pub valid : Bool
  pub dirty : Bool
  pub lock : Sleeplock
  pub refcnt : ℕ
  pub bytes : Mem

-- `binit` puts each buffer in front of those before it.
pub binit_from : List Buf → List Buf → List Buf
binit_from [] cache = cache
binit_from (b ∷ bufs) cache = binit_from bufs (record b { lock = initsleeplock } ∷ cache)

unfoldable pub binit : List Buf → List Buf
unfolding binit_from
binit bufs = binit_from bufs []

abbrev pub is_block : ℕ → ℕ → Buf → Bool
is_block dev blockno b = b.dev == dev && b.blockno == blockno

abbrev pub is_idle : Buf → Bool
is_idle b = b.refcnt == 0 && not b.dirty

-- The first buffer from the front that passes a test.
unfoldable pub find_buf : (Buf → Bool) → List Buf → Option Buf
find_buf test [] = none
find_buf test (b ∷ bufs) =
    let rest : Option Buf = find_buf test bufs in if test b then some b else rest

abbrev or_else : Option Buf → Option Buf → Option Buf
or_else none b = b
or_else (some a) b = some a

-- The first from the back.
unfoldable pub find_back : (Buf → Bool) → List Buf → Option Buf
find_back test [] = none
find_back test (b ∷ bufs) = or_else (find_back test bufs) (if test b then some b else none)

-- A change of the buffer `id`.
unfoldable pub update : ℕ → (Buf → Buf) → List Buf → List Buf
update id f [] = []
update id f (b ∷ bufs) =
    let rest : List Buf = update id f bufs in if b.id == id then f b ∷ bufs else b ∷ rest

abbrev pub take_ref : Buf → Buf
take_ref b = record b { refcnt = b.refcnt + 1 }

abbrev pub recycle : ℕ → ℕ → Buf → Buf
recycle dev blockno b = record b {
  dev = dev;
  blockno = blockno;
  valid = false;
  dirty = false;
  refcnt = 1;
}

-- `bget` under `bcache.lock`.
unfoldable pub bget : ℕ → ℕ → List Buf → Result (ℕ × List Buf)
unfolding find_buf find_back update
bget dev blockno cache = elim (find_buf (is_block dev blockno) cache) [
  | some b ↦ ok (b.id, update b.id take_ref cache)
  | none ↦ elim (find_back is_idle cache) [
    | some b ↦ ok (b.id, update b.id (recycle dev blockno) cache)
    | none ↦ panic "bget: no buffers"
  ]
]

abbrev pub has_id : ℕ → Buf → Bool
has_id id b = b.id == id

unfoldable pub get_buf : ℕ → List Buf → Result Buf
unfolding find_buf
get_buf id cache = elim (find_buf (has_id id) cache) [ none ↦ fault | some b ↦ ok b ]

-- `acquiresleep(&b->lock)` at the end of `bget`; none if the process goes to sleep.
unfoldable pub lock_buf : ℕ → ℕ → List Buf → Result (Option (List Buf))
unfolding get_buf update
lock_buf pid id cache = do
  b ← get_buf id cache
  elim (acquiresleep pid b.lock) [
    | none ↦ ok none
    | some lk ↦ ok (some (update id (λ c. record c { lock = lk }) cache))
  ]

-- The disk as blocks, `disksize` of them.
module _ (disksize : ℕ) where
  -- What `iderw` makes of the disk and the buffer.
  unfoldable pub iderw : ℕ → Buf → (ℕ → Mem) → Result (Buf × (ℕ → Mem))
  iderw pid b disk = do
    panic_if (not (holdingsleep pid b.lock)) "iderw: buf not locked"
    panic_if (b.valid && not b.dirty) "iderw: nothing to do"
    panic_if (not (b.dev == 1)) "iderw: request not for disk 1"
    panic_if (leb disksize b.blockno) "iderw: block out of range"
    if b.dirty
        then ok (record b { dirty = false; valid = true }, put_block disk b.blockno b.bytes)
        else ok (record b { bytes = disk b.blockno; valid = true }, disk)

  -- `bread` once it has the locked buffer `id` of `bget`.
  unfoldable pub bread_locked : ℕ → ℕ → List Buf → (ℕ → Mem) → Result (List Buf × (ℕ → Mem))
  unfolding get_buf update iderw
  bread_locked pid id cache disk = do
    b ← get_buf id cache
    if b.valid
        then ok (cache, disk)
        else (do (b', disk') ← iderw pid b disk; ok (update id (λ c. b') cache, disk'))

  unfoldable pub bwrite_buf : ℕ → ℕ → List Buf → (ℕ → Mem) → Result (List Buf × (ℕ → Mem))
  unfolding get_buf update iderw
  bwrite_buf pid id cache disk = do
    b ← get_buf id cache
    panic_if (not (holdingsleep pid b.lock)) "bwrite"
    (b', disk') ← iderw pid (record b { dirty = true }) disk
    ok (update id (λ c. b') cache, disk')

-- The list without the buffer `id`.
unfoldable pub remove : ℕ → List Buf → List Buf
remove id [] = []
remove id (b ∷ bufs) = let rest : List Buf = remove id bufs in if b.id == id then bufs else b ∷ rest

-- The count does not go below 0 in the model: a release too many is a fault.
unfoldable pub brelse : ℕ → ℕ → List Buf → Result (List Buf)
unfolding get_buf update remove
brelse pid id cache = do
  b ← get_buf id cache
  panic_if (not (holdingsleep pid b.lock)) "brelse"
  let b' : Buf = record b { lock = releasesleep b.lock; refcnt = b.refcnt - 1 }
  if b.refcnt == 0
      then fault
      else if b.refcnt - 1 == 0
      then ok (b' ∷ remove id cache)
      else ok (update id (λ c. b') cache)
