-- ===== src/Log/Space/Reserve.antt =====
-- log.c: what the reservation of `begin_op` gives an operation.
use os.Base.{ℕ, ◌+◌, ◌-◌, ◌≤◌, ◌≡◌, Bool, true, some, List, [], ◌∷◌, ◌++◌, if◌then◌else◌, length}
use os.Base.Result.{ok}
use os.Log.Space.{LogOps, maxopblocks, logsize, begin_op, end_op, end_commit, is_logged, log_write}

-- The blocks that an operation has written, each once, after a write of `x`.
abbrev pub counted : ℕ → List ℕ → List ℕ
counted x ws = if is_logged x ws then ws else x ∷ ws

-- What the operations may still write.
abbrev pub unwritten : List (List ℕ) → ℕ
unwritten [] = 0
unwritten (ws ∷ ops) = (maxopblocks - length ws) + unwritten ops

-- All blocks of `ws` are in the log.
abbrev pub Covers : List ℕ → List ℕ → Type 0
Covers blocks ws = (x : ℕ) → is_logged x ws ≡ true → is_logged x blocks ≡ true

-- No operation has written more than it may, and all that they have written is in the log.
abbrev pub AreCovered : List ℕ → List (List ℕ) → Type 0
AreCovered blocks [] = Unit {0}
AreCovered blocks (ws ∷ ops) = (length ws ≤ maxopblocks) × Covers blocks ws × AreCovered blocks ops

-- The log, and for each operation that has begun the blocks that it has written. An operation writes
-- at most `MAXOPBLOCKS` different blocks, each as often as it likes.
pub data Step : LogOps → List (List ℕ) → LogOps → List (List ℕ) → Type 0 where
  begins : {l l' : LogOps} {ops : List (List ℕ)} → begin_op l ≡ some l' → Step l ops l' ([] ∷ ops)
  writes :
      {l l' : LogOps} {ops : List (List ℕ)} (xs ys : List (List ℕ)) (ws : List ℕ) (x : ℕ)
      → ops ≡ xs ++ (ws ∷ ys)
      → length (counted x ws) ≤ maxopblocks
      → log_write x l ≡ ok l'
      → Step l ops l' (xs ++ (counted x ws ∷ ys))
  ends :
      {l l' : LogOps} {ops : List (List ℕ)} (xs ys : List (List ℕ)) (ws : List ℕ) (last : Bool)
      → ops ≡ xs ++ (ws ∷ ys)
      → end_op l ≡ ok (last, l')
      → Step l ops l' (xs ++ ys)
  commits : {l : LogOps} {ops : List (List ℕ)} → l.committing ≡ true → Step l ops (end_commit l) ops

pub data Reach (l : LogOps) (ops : List (List ℕ)) : LogOps → List (List ℕ) → Type 0 where
  here : Reach l ops l ops
  next :
      {m n : LogOps} {ops1 ops2 : List (List ℕ)}
      → Reach l ops m ops1
      → Step m ops1 n ops2
      → Reach l ops n ops2

-- The space that `begin_op` has reserved, in a log of `size` blocks.
pub record HasSpace (size : ℕ) (l : LogOps) (ops : List (List ℕ)) : Type 0 where
  pub counted_ops : length ops ≡ l.outstanding
  pub covered : AreCovered l.blocks ops
  pub room : length l.blocks + unwritten ops ≤ logsize
  pub idle : l.committing ≡ true → l.outstanding ≡ 0
  pub same_size : l.size ≡ size

-- A write from `l` to `m` that succeeds leaves `x` in the log, with all that was there, and the log is
-- longer only if `x` was not there.
abbrev Wrote : ℕ → LogOps → LogOps → Type 0
Wrote x l m =
    (m.outstanding ≡ l.outstanding)
    × (m.committing ≡ l.committing)
    × (m.size ≡ l.size)
    × (is_logged x m.blocks ≡ true)
    × ((y : ℕ) → is_logged y l.blocks ≡ true → is_logged y m.blocks ≡ true)
    × (length m.blocks ≤ length l.blocks + 1)
    × (is_logged x l.blocks ≡ true → length m.blocks ≡ length l.blocks)
