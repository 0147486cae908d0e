-- ===== src/Ide.antt =====
-- ide.c: the queue of requests to the disk. A `struct buf*` is the buffer's identity, `bufs` the
-- store of the buffers, and the list linked by `qnext` from `idequeue` on is the list `queue`. A call
-- holds `idelock` from its start to its return or sleep, and is one step. `idewait(0)` waits until
-- the disk is ready.
pub mod Fifo
mod Tests
use os.Base.{
  ℕ, ◌+◌, ◌*◌, ◌/◌, ◌%◌, ◌≡◌, Bool, true, false, not, ◌&&◌, Option, none, some, List, [], ◌∷◌, ◌++◌,
  ◌==◌, leb, if◌then◌else◌, bit_or,
}
use os.Base.Result.{Result, ok, panic, fault, ◌>>=◌, ◌>>◌, panic_if}
use os.Machine.{Mem}
use os.Lock.{holdingsleep}
use os.Bio.{Buf}
use os.Fs.{bsize}

abbrev sector_size : ℕ
sector_size = 512

abbrev fssize : ℕ
fssize = 1000

-- `outb` of a byte to a port, and `outsl` of the words of a block.
pub data Io : Type 0 where
  outb : ℕ → ℕ → Io
  outsl : ℕ → Mem → ℕ → Io

-- `requests` are the calls of `idestart` so far, in order: the buffer of each, and what it put out.
pub record Ide : Type 0 where
  pub queue : List ℕ
  pub bufs : ℕ → Buf
  pub havedisk1 : Bool
  pub requests : List (ℕ × List Io)

-- The sectors of a block.
abbrev sector_per_block : ℕ
sector_per_block = bsize / sector_size

-- What `idestart` puts out, with one sector for each block.
unfoldable pub idestart : Buf → Result (List Io)
idestart b =
    let sector : ℕ = b.blockno * sector_per_block in
    let command : List Io =
      if b.dirty
      then outb 0x1f7 0x30 ∷ outsl 0x1f0 b.bytes (bsize / 4) ∷ []
      else outb 0x1f7 0x20 ∷ [] in
    if leb fssize b.blockno
    then panic "incorrect blockno"
    else ok (
        outb 0x3f6 0
        ∷ outb 0x1f2 sector_per_block
        ∷ outb 0x1f3 (sector % 256)
        ∷ outb 0x1f4 (sector / 256 % 256)
        ∷ outb 0x1f5 (sector / 65536 % 256)
        ∷ outb 0x1f6 (0xe0 + 16 * (b.dev % 2) + sector / 16777216 % 16)
        ∷ command)

-- Start the request of the buffer `b`.
unfoldable pub start : ℕ → Ide → Result Ide
unfolding idestart
start b s = do out ← idestart (s.bufs b); ok (record s { requests = s.requests ++ ((b, out) ∷ []) })

abbrev pub update : (ℕ → Buf) → ℕ → Buf → ℕ → Buf
update bufs i b j = if j == i then b else bufs j

-- What the interrupt makes of the buffer of the active request: `error` tells whether the disk
-- reports one, `input` is what it gives.
unfoldable pub received : Bool → Mem → Buf → Buf
received error input b = record b {
  bytes =
      if not b.dirty && not error
      then (λ x. if leb bsize x then b.bytes x else input x)
      else b.bytes;
  valid = true;
  dirty = false;
}

-- The next request, if there is one.
unfoldable pub start_next : Ide → List ℕ → Result Ide
unfolding start
start_next s [] = ok s
start_next s (b ∷ rest) = start b s

-- The interrupt's work on a queue.
unfoldable pub serve : Bool → Mem → Ide → List ℕ → Result (Ide × Option ℕ)
unfolding received start_next
serve error input s [] = ok (s, none)
serve error input s (b ∷ rest) = do
  t ←
      start_next
        (record s { queue = rest; bufs = update s.bufs b (received error input (s.bufs b)) }) rest
  ok (t, some b)

-- The new state, and the buffer whose waiting process is woken.
unfoldable pub ideintr : Bool → Mem → Ide → Result (Ide × Option ℕ)
unfolding serve
ideintr error input s = serve error input s s.queue

abbrev pub cons_to : ℕ → Option (List ℕ) → Option (List ℕ)
cons_to c none = none
cons_to c (some q) = some (c ∷ q)

-- `b` is put at the end of the queue, which for a buffer that is in it already would make a cycle.
unfoldable pub enqueue : ℕ → List ℕ → Option (List ℕ)
enqueue b [] = some (b ∷ [])
enqueue b (c ∷ rest) =
    let longer : Option (List ℕ) = enqueue b rest in if c == b then none else cons_to c longer

-- The request of `b`, with the queue before and after; the disk is started if `b` is its head.
unfoldable pub queued : ℕ → Ide → List ℕ → Option (List ℕ) → Result Ide
unfolding start
queued b s old none = fault
queued b s [] (some q) = start b (record s { queue = q })
queued b s (c ∷ rest) (some q) = ok (record s { queue = q })

-- `iderw` up to its first wait, called by the process `pid`.
unfoldable pub iderw : ℕ → ℕ → Ide → Result Ide
unfolding enqueue queued
iderw pid b s =
    let buf : Buf = s.bufs b in
    do
      panic_if (not (holdingsleep pid buf.lock)) "iderw: buf not locked"
      panic_if (buf.valid && not buf.dirty) "iderw: nothing to do"
      panic_if (not (buf.dev == 0) && not s.havedisk1) "iderw: ide disk 1 not present"
      queued b s s.queue (enqueue b s.queue)

-- Whether the wait ends.
abbrev pub is_done : Buf → Bool
is_done b = b.valid && not b.dirty
