-- ===== src/Proc/Exit.antt =====
-- proc.c: the whole of `exit` up to the call of `sched`. The process's entry and its current directory
-- are as in Fork; `begin_op` and `end_op` are in Log/Space.
pub mod References
mod Tests
use os.Base.{ℕ, Bool, true, false, Option, none, some, List, [], ◌∷◌, ◌==◌, set, length, replicate}
use os.Base.Result.{Result, ok, panic, fault, ◌>>=◌, ◌>>◌, panic_if}
use os.Fs.{SuperBlock, Fs}
use os.Fs.Inodes.{iput}
use os.File.{Files, fileclose}
use os.Proc.{Proc}
use os.Proc.Table.{exit_table}

-- The process with nothing open.
abbrev pub closed : Proc → Proc
closed p = record p { ofile = replicate (length p.ofile) none; cwd = none }

module _ (sb : SuperBlock) where
  -- The loop over the open files.
  unfoldable pub close_files : List (Option ℕ) → Files → Result Files
  unfolding fileclose
  close_files [] w = ok w
  close_files (none ∷ ofile) w = close_files ofile w
  close_files (some f ∷ ofile) w = do w' ← fileclose sb f w; close_files ofile w'

  abbrev pub put_cwd : Option ℕ → Fs → Result Fs
  put_cwd none fs = fault
  put_cwd (some ip) fs = do (done, fs') ← iput sb ip fs; ok fs'

  -- `cur` and `initproc` are indices of the table.
  unfoldable pub exit : ℕ → ℕ → Proc → List Proc → Files → Result (List Proc × Files)
  unfolding close_files exit_table
  exit cur initproc curproc procs w = do
    panic_if (cur == initproc) "init exiting"
    w' ← close_files curproc.ofile w
    fs' ← put_cwd curproc.cwd w'.fs
    ok (
      exit_table cur initproc (closed curproc) (set procs cur (closed curproc)),
      record w' { fs = fs' },
    )
