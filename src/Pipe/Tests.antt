-- ===== src/Pipe/Tests.antt =====
-- Runs of a pipe, and its theorems on them.
use os.Base.{ℕ, ◌≡◌, refl, true, false, List, [], ◌∷◌, ◌++◌, replicate, arith}
use os.Pipe.{Pipe, returns, pipewrite, copy_out, piperead, put}
use os.Pipe.Ring.{IsValid}
use os.Pipe.Fifo.{Run, IsFifo, Run-IsFifo, taken, given}

-- An empty pipe whose counters are about to wrap around.
abbrev old_pipe : Pipe
old_pipe = record {
  bytes = replicate 512 0;
  nread = 4294967295;
  nwrite = 4294967295;
  readopen = true;
  writeopen = true;
}

old_pipe-IsValid : IsValid old_pipe
old_pipe-IsValid = record {
  room = refl;
  read_word = omega arith;
  write_word = omega arith;
  fits = omega arith;
}

two_bytes : (pipewrite false 2 old_pipe (7 ∷ 8 ∷ [])).pipe.nwrite ≡ 1
unfolding pipewrite put
two_bytes = refl

back_again :
    (piperead false (pipewrite false 2 old_pipe (7 ∷ 8 ∷ [])).pipe 5).outcome ≡ returns (7 ∷ 8 ∷ [])
unfolding pipewrite put piperead copy_out
back_again = refl

abbrev written : Pipe
written = (pipewrite false 2 old_pipe (7 ∷ 8 ∷ [])).pipe

abbrev went_in : List ℕ
went_in = taken old_pipe written (7 ∷ 8 ∷ [])

abbrev came_out : List ℕ
came_out = given (piperead false written 1).outcome

Run-IsFifo_example :
    IsFifo old_pipe ([] ++ went_in) ([] ++ came_out) (piperead false written 1).pipe
Run-IsFifo_example =
    Run-IsFifo old_pipe-IsValid (Run.read false 1 (Run.write false 2 (7 ∷ 8 ∷ []) Run.start))
