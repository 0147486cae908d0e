-- ===== src/Log/Runs.antt =====
-- A rule for runs that may crash, and the header's words.
use os.Base.{ℕ, ◌-◌, ◌≡◌, inl, inr, List, ◌==◌, take-length-append, Bool-cases}
use mathlib.Core.Path.{subst}
use os.Log.{
  Block, Disk, LogState, Run, running, crashed, ◌>>=◌, head_block, head_blocks, update, bwrite,
}

-- If the run crashes, `P` holds of the disk; if it ends, `Q` holds of the state.
abbrev pub Ends : (Disk → Type 0) → (LogState → Type 0) → Run → Type 0
Ends P Q (running s) = Q s
Ends P Q (crashed d) = P d

pub Ends-bind :
    (P : Disk → Type 0) (Q R : LogState → Type 0) (m : Run) (f : LogState → Run)
    → Ends P Q m
    → ((s : LogState) → Q s → Ends P R (f s))
    → Ends P R (m >>= f)
Ends-bind P Q R (running s) f h k = k s h
Ends-bind P Q R (crashed d) f h k = h

pub Ends-weaken :
    (P P' : Disk → Type 0) (Q : LogState → Type 0) (m : Run)
    → ((d : Disk) → P d → P' d)
    → Ends P Q m
    → Ends P' Q m
Ends-weaken P P' Q (running s) w h = h
Ends-weaken P P' Q (crashed d) w h = w d h

-- A header that was written is read back.
pub head_blocks-head_block : (old : Block) (lh : List ℕ) → head_blocks (head_block old lh) ≡ lh
unfolding head_block head_blocks
head_blocks-head_block old lh = take-length-append lh _

-- A write is made, or the run ends before it.
pub Ends-bwrite :
    (P : Disk → Type 0) (Q : LogState → Type 0) (b : ℕ) (s : LogState)
    → P s.disk
    → Q (record s { disk = update s.disk b (s.mem b); writes_left = s.writes_left - 1 })
    → Ends P Q (bwrite b s)
unfolding bwrite
Ends-bwrite P Q b s h k = elim (Bool-cases (s.writes_left == 0)) [
  | inl none_left ↦ rw none_left h
  | inr some_left ↦ rw some_left k
]

pub Ends-bwrite_then :
    (P : Disk → Type 0) (R : LogState → Type 0) (b : ℕ) (s : LogState) (f : LogState → Run)
    → P s.disk
    → Ends P R (f (record s { disk = update s.disk b (s.mem b); writes_left = s.writes_left - 1 }))
    → Ends P R (bwrite b s >>= f)
unfolding bwrite
Ends-bwrite_then P R b s f h k = elim (Bool-cases (s.writes_left == 0)) [
  | inl none_left ↦ rw none_left h
  | inr some_left ↦ rw some_left k
]

pub Ends-map :
    (P : Disk → Type 0) (Q R : LogState → Type 0) (m : Run)
    → ((s : LogState) → Q s → R s)
    → Ends P Q m
    → Ends P R m
Ends-map P Q R (running s) w h = w s h
Ends-map P Q R (crashed d) w h = h

pub Ends-crashed :
    (P : Disk → Type 0) (Q : LogState → Type 0) (m : Run) (d : Disk)
    → m ≡ crashed d
    → Ends P Q m
    → P d
Ends-crashed P Q m d e h = subst (Ends P Q) e h

pub Ends-running :
    (P : Disk → Type 0) (Q : LogState → Type 0) (m : Run) (s : LogState)
    → m ≡ running s
    → Ends P Q m
    → Q s
Ends-running P Q m s e h = subst (Ends P Q) e h
