-- ===== src/Pipe/Fifo.antt =====
-- Any interleaving of writers and readers: a pipe is a queue.
use mathlib.Core.List.{append-nil, append_assoc}
use os.Base.{
  ℕ, ◌≡◌, refl, sym, ap, ◌∙◌, inl, inr, Bool, true, false, List, [], ◌++◌, length, take, drop,
  if◌then◌else◌, arith, length-append, take-length-append, take-append-drop,
}
use os.Machine.{sub32}
use os.Pipe.{Pipe, Outcome, returns, fails, sleeps, pipewrite, piperead, pipeclose}
use os.Pipe.Ring.{IsValid, contents, length-contents}
use os.Pipe.Calls.{pipewrite_lem, piperead_lem}

-- The bytes that a section of `pipewrite` took from `src`, by how far it moved `nwrite`.
abbrev pub taken : Pipe → Pipe → List ℕ → List ℕ
taken p q src = take (sub32 q.nwrite p.nwrite) src

-- The bytes that a section of `piperead` gave to its caller.
abbrev pub given : Outcome (List ℕ) → List ℕ
given (returns out) = out
given fails = []
given (sleeps _) = []

-- From `p` a sequence of sections and closes leads to `q`; `ins` went in and `outs` came out.
pub data Run (p : Pipe) : List ℕ → List ℕ → Pipe → Type 0 where
  start : Run p [] [] p
  write :
      {ins outs : List ℕ} {q : Pipe} (killed : Bool) (n : ℕ) (src : List ℕ)
      → Run p ins outs q
      → Run p
          (ins ++ taken q (pipewrite killed n q src).pipe src)
          outs
          (pipewrite killed n q src).pipe
  read :
      {ins outs : List ℕ} {q : Pipe} (killed : Bool) (n : ℕ)
      → Run p ins outs q
      → Run p ins (outs ++ given (piperead killed q n).outcome) (piperead killed q n).pipe
  close :
      {ins outs : List ℕ} {q : Pipe} (writable : Bool)
      → Run p ins outs q
      → Run p ins outs (pipeclose q writable).0

-- The section moved `nwrite` by as many bytes as it appended.
taken-eq :
    (p q : Pipe) (src xs ys : List ℕ)
    → IsValid p
    → IsValid q
    → q.nread ≡ p.nread
    → src ≡ xs ++ ys
    → contents q ≡ contents p ++ xs
    → taken p q src ≡ xs
taken-eq p q src xs ys v w same e c =
    let grown : sub32 q.nwrite p.nwrite ≡ length xs =
      omega
        (arith, ap length c, length-append (contents p) xs, length-contents p, length-contents q) in
    ap (λ (k : ℕ). take k src) grown ∙ ap (take (length xs)) e ∙ take-length-append xs ys

-- `ins` was appended to the contents and `outs` taken from their front.
abbrev pub IsFifo : Pipe → List ℕ → List ℕ → Pipe → Type 0
IsFifo p ins outs q = IsValid q × (contents p ++ ins ≡ outs ++ contents q)

write-IsFifo :
    (p q : Pipe) (ins outs : List ℕ) (killed : Bool) (n : ℕ) (src : List ℕ)
    → IsFifo p ins outs q
    → IsFifo p
        (ins ++ taken q (pipewrite killed n q src).pipe src)
        outs
        (pipewrite killed n q src).pipe
write-IsFifo p q ins outs killed n src (v, e) =
    let (v', same, (xs, ys, parts, c, _)) = pipewrite_lem killed n q src v in
    let moved = taken-eq q (pipewrite killed n q src).pipe src xs ys v v' same parts c in
    (
      v',
      ap (λ l. contents p ++ (ins ++ l)) moved
          ∙ sym (append_assoc (contents p) ins xs)
          ∙ ap (λ l. l ++ xs) e
          ∙ append_assoc outs (contents q) xs
          ∙ ap (λ l. outs ++ l) (sym c),
    )

given_none : (k : Bool) → given (if k then fails else sleeps []) ≡ []
given_none true = refl
given_none false = refl

read-IsFifo :
    (p q : Pipe) (ins outs : List ℕ) (killed : Bool) (n : ℕ)
    → IsFifo p ins outs q
    → IsFifo p ins (outs ++ given (piperead killed q n).outcome) (piperead killed q n).pipe
read-IsFifo p q ins outs killed n (v, e) = elim (piperead_lem killed q n v) [
  | inl (_, _, same, out, _) ↦ rw (same, out, given_none killed, append-nil outs) (v, e)
  | inr (_, v', out, left, _) ↦ (
    v',
    e
        ∙ ap (λ l. outs ++ l) (sym (take-append-drop n (contents q)))
        ∙ sym (append_assoc outs (take n (contents q)) (drop n (contents q)))
        ∙ (rw (out, left) refl),
  )
]

close-IsFifo :
    (p q : Pipe) (ins outs : List ℕ) (writable : Bool)
    → IsFifo p ins outs q
    → IsFifo p ins outs (pipeclose q writable).0
unfolding pipeclose
close-IsFifo p q ins outs true (v, e) =
    (record { room = v.room; read_word = v.read_word; write_word = v.write_word; fits = v.fits }, e)
close-IsFifo p q ins outs false (v, e) =
    (record { room = v.room; read_word = v.read_word; write_word = v.write_word; fits = v.fits }, e)

-- From a valid pipe, nothing is lost, made up, or reordered by any number of writers and readers:
-- what was in the pipe and what went in is what came out and what is in it still. The counters stay
-- in bounds.
pub Run-IsFifo :
    {p q : Pipe} {ins outs : List ℕ} → IsValid p → Run p ins outs q → IsFifo p ins outs q
Run-IsFifo {p} v start = (v, append-nil (contents p))
Run-IsFifo {p} v (write {ins} {outs} {q} killed n src r) =
    write-IsFifo p q ins outs killed n src (Run-IsFifo v r)
Run-IsFifo {p} v (read {ins} {outs} {q} killed n r) =
    read-IsFifo p q ins outs killed n (Run-IsFifo v r)
Run-IsFifo {p} v (close {ins} {outs} {q} writable r) =
    close-IsFifo p q ins outs writable (Run-IsFifo v r)
