-- ===== src/Pipe.antt =====
-- pipe.c: the ring buffer of a pipe. `pipewrite` and `piperead` hold the pipe's lock but for their
-- sleeps, so each is modelled as the section up to its return or next sleep; who is woken runs a
-- section again with what is left. `nread` and `nwrite` are 32-bit and wrap around; the bytes that
-- `pipewrite` takes and `piperead` fills are lists.
pub mod Ring
pub mod Calls
pub mod Fifo
mod Tests
use os.Base.{
  ℕ, zero, suc, ◌+◌, ◌%◌, ◌^◌, Bool, true, false, ◌&&◌, ◌||◌, not, List, [], ◌∷◌, ◌==◌,
  if◌then◌else◌, get_or, set,
}
use os.Machine.{add32}

abbrev pub pipesize : ℕ
pipesize = 512

-- `bytes` is the array `data`.
pub record Pipe : Type 0 where
  pub bytes : List ℕ
  pub nread : ℕ
  pub nwrite : ℕ
  pub readopen : Bool
  pub writeopen : Bool

-- The two channels of a pipe: `&p->nread`, on which readers sleep, and `&p->nwrite`.
pub data End : Type 0 where
  readers writers : End

-- How a section ends: the call returns a count, returns -1, or sleeps with work left.
pub data Outcome {ℓ} (A : Type ℓ) : Type ℓ where
  returns : A → Outcome A
  fails : Outcome A
  sleeps : List ℕ → Outcome A

-- The pipe after the section, how it ended, and which sleepers were woken.
pub record Section {ℓ} (A : Type ℓ) : Type ℓ where
  pub pipe : Pipe
  pub outcome : Outcome A
  pub woken : List End

abbrev pub is_full : Pipe → Bool
is_full p = p.nwrite == add32 p.nread pipesize

abbrev pub is_empty : Pipe → Bool
is_empty p = p.nread == p.nwrite

-- `p->data[p->nwrite++ % PIPESIZE] = b`
unfoldable pub put : Pipe → ℕ → Pipe
put p b = record p { bytes = set p.bytes (p.nwrite % pipesize) b; nwrite = add32 p.nwrite 1 }

-- A section of `pipewrite` with the bytes left to write. `n` is the argument, returned in the end.
unfoldable pub pipewrite : Bool → ℕ → Pipe → List ℕ → Section ℕ
pipewrite killed n p [] = record { pipe = p; outcome = returns n; woken = readers ∷ [] }
pipewrite killed n p (b ∷ bs) =
    let rest : Section ℕ = pipewrite killed n (put p b) bs in
    let stuck : Section ℕ =
      (if not p.readopen || killed
        then record { pipe = p; outcome = fails; woken = [] }
        else record { pipe = p; outcome = sleeps (b ∷ bs); woken = readers ∷ [] }) in
    if is_full p then stuck else rest

-- The loop that copies up to `n` bytes out.
unfoldable pub copy_out : ℕ → Pipe → List ℕ × Pipe
copy_out zero p = ([], p)
copy_out (suc n) p =
    let rest : List ℕ × Pipe = copy_out n (record p { nread = add32 p.nread 1 }) in
    if is_empty p then ([], p) else (get_or p.bytes (p.nread % pipesize) 0 ∷ rest.0, rest.1)

-- A section of `piperead`; the count that it returns is the length of the bytes.
unfoldable pub piperead : Bool → Pipe → ℕ → Section (List ℕ)
piperead killed p n =
    if is_empty p && p.writeopen
    then if killed
      then record { pipe = p; outcome = fails; woken = [] }
      else record { pipe = p; outcome = sleeps []; woken = [] }
    else (let (out, p') = copy_out n p in
        record { pipe = p'; outcome = returns out; woken = writers ∷ [] })

-- Closes one end; the page is freed when both ends are closed.
unfoldable pub pipeclose : Pipe → Bool → Pipe × Bool × List End
pipeclose p writable =
    let p' = (if writable then record p { writeopen = false } else record p { readopen = false }) in
    (p', not p'.readopen && not p'.writeopen, (if writable then readers ∷ [] else writers ∷ []))

-- The pipe of `pipealloc`, on a page that holds `junk`.
unfoldable pub pipealloc : List ℕ → Pipe
pipealloc junk = record { bytes = junk; nread = 0; nwrite = 0; readopen = true; writeopen = true }
