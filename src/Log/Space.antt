-- ===== src/Log/Space.antt =====
-- log.c: `begin_op`, `end_op` and `log_write`, which share out the space of the log among the file
-- system calls. Each is one section under `log.lock`; `commit` is in the parent.
pub mod Reserve
mod Tests
use os.Base.{
  ℕ, ◌+◌, ◌-◌, ◌*◌, Bool, true, false, ◌||◌, Option, none, some, List, [], ◌∷◌, ◌++◌, ◌==◌, ltb,
  leb, if◌then◌else◌, length,
}
use os.Base.Result.{Result, ok, panic, fault, ◌>>=◌, ◌>>◌, panic_if}

-- param.h
abbrev pub maxopblocks : ℕ
maxopblocks = 10

abbrev pub logsize : ℕ
logsize = maxopblocks * 3

-- `blocks` is `lh.block` up to `lh.n`.
pub record LogOps : Type 0 where
  pub blocks : List ℕ
  pub outstanding : ℕ
  pub committing : Bool
  pub size : ℕ

-- One round of the loop of `begin_op`; none if the caller is put to sleep.
unfoldable pub begin_op : LogOps → Option LogOps
begin_op l =
    if l.committing
    then none
    else if ltb logsize (length l.blocks + (l.outstanding + 1) * maxopblocks)
    then none
    else some (record l { outstanding = l.outstanding + 1 })

-- Whether the caller commits, or wakes the sleepers. The count of operations does not go below 0 in
-- the model: `end_op` without `begin_op` is a fault.
unfoldable pub end_op : LogOps → Result (Bool × LogOps)
end_op l = if l.outstanding == 0 then fault else (do
  panic_if l.committing "log.committing"
  if l.outstanding - 1 == 0
      then ok (true, record l { outstanding = 0; committing = true })
      else ok (false, record l { outstanding = l.outstanding - 1 }))

-- What `end_op` does once `commit` is done, which leaves the list of blocks empty.
unfoldable pub end_commit : LogOps → LogOps
end_commit l = record l { blocks = []; committing = false }

abbrev pub is_logged : ℕ → List ℕ → Bool
is_logged x [] = false
is_logged x (b ∷ bs) = b == x || is_logged x bs

-- A block that is in the list already is absorbed.
unfoldable pub log_write : ℕ → LogOps → Result LogOps
log_write x l = do
  panic_if (leb logsize (length l.blocks) || leb l.size (length l.blocks + 1))
      "too big a transaction"
  panic_if (ltb l.outstanding 1) "log_write outside of trans"
  if is_logged x l.blocks then ok l else ok (record l { blocks = l.blocks ++ (x ∷ []) })
