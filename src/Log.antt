-- ===== src/Log.antt =====
-- log.c: the commit of a transaction to disk and the recovery from the log after a crash.
-- A block is its words. `mem` is what `bread` gives: the buffer cache's copy, or the disk's; `disk`
-- is what has been written. A crash may come before any disk write: the state carries how many
-- writes are still made, and a write without one left ends the run with the disk as it is. One
-- block is written whole or not at all, and there is one device.
pub mod Runs
pub mod Install
pub mod Commit
pub mod Recovery
pub mod Finish
pub mod Space
mod Tests
use os.Base.{
  ℕ, zero, suc, ◌+◌, ◌-◌, Bool, true, false, not, List, [], ◌∷◌, ◌++◌, ◌==◌, if◌then◌else◌, length,
  take, drop, ltb,
}

abbrev pub Block : Type 0
Block = List ℕ

abbrev pub Disk : Type 0
Disk = ℕ → Block

-- `lh` is the list of block numbers of the in-memory header, `log.lh`.
pub record LogState : Type 0 where
  pub disk : Disk
  pub mem : Disk
  pub lh : List ℕ
  pub writes_left : ℕ

pub data Run : Type 0 where
  running : LogState → Run
  crashed : Disk → Run

infixl 5 ◌>>=◌
abbrev pub ◌>>=◌ : Run → (LogState → Run) → Run
running s >>= f = f s
crashed d >>= f = crashed d

abbrev pub update : Disk → ℕ → Block → Disk
update d b v x = if x == b then v else d x

-- `bwrite` of the buffer of block `b`
unfoldable pub bwrite : ℕ → LogState → Run
bwrite b s =
    if s.writes_left == 0
    then crashed s.disk
    else running (record s { disk = update s.disk b (s.mem b); writes_left = s.writes_left - 1 })

-- `memmove(dst->data, src->data, BSIZE)` between two buffers
abbrev pub copy_block : ℕ → ℕ → LogState → LogState
copy_block dst src s = record s { mem = update s.mem dst (s.mem src) }

-- The header's words: `n`, then the block numbers, in a block whose other words stay.
abbrev pub rest_of : Block → Block
rest_of [] = []
rest_of (w ∷ ws) = ws

unfoldable pub head_block : Block → List ℕ → Block
head_block old lh = length lh ∷ (lh ++ drop (length lh) (rest_of old))

unfoldable pub head_blocks : Block → List ℕ
head_blocks [] = []
head_blocks (n ∷ ws) = take n ws

-- `start` is `log.start`.
module _ (start : ℕ) where
  -- The loops of `write_log` and `install_trans` over the blocks from place `tail` on.
  unfoldable pub write_log : ℕ → List ℕ → LogState → Run
  write_log tail [] s = running s
  write_log tail (b ∷ bs) s =
      bwrite (start + tail + 1) (copy_block (start + tail + 1) b s) >>= write_log (tail + 1) bs

  unfoldable pub install_trans : ℕ → List ℕ → LogState → Run
  install_trans tail [] s = running s
  install_trans tail (b ∷ bs) s =
      bwrite b (copy_block b (start + tail + 1) s) >>= install_trans (tail + 1) bs

  unfoldable pub write_head : LogState → Run
  write_head s =
      bwrite start (record s { mem = update s.mem start (head_block (s.mem start) s.lh) })

  unfoldable pub read_head : LogState → LogState
  read_head s = record s { lh = head_blocks (s.mem start) }

  -- `log.lh.n = 0; write_head();`
  unfoldable pub clear_head : LogState → Run
  unfolding write_head
  clear_head s = write_head (record s { lh = [] })

  unfoldable pub commit : LogState → Run
  unfolding write_log write_head install_trans clear_head
  commit s =
      if ltb 0 (length s.lh)
      then write_log 0 s.lh s >>= write_head >>= (λ t. install_trans 0 t.lh t) >>= clear_head
      else running s

  unfoldable pub recover_from_log : LogState → Run
  unfolding read_head install_trans clear_head
  recover_from_log s = let t : LogState = read_head s in install_trans 0 t.lh t >>= clear_head

-- After a crash the cache is empty: every block is read from the disk. `k` writes are made then.
abbrev pub reboot : Disk → ℕ → LogState
reboot d k = record { disk = d; mem = d; lh = []; writes_left = k }
