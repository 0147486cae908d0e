-- ===== src/Pipe/Calls.antt =====
-- What `pipewrite` and `piperead` do to the bytes in the pipe, and their interleavings.
use mathlib.Core.List.{append-nil, append_assoc}
use os.Base.{
  ℕ, zero, suc, ◌%◌, ◌≡◌, ◌≢◌, refl, sym, ap, ◌∙◌, ◌⊎◌, inl, inr, Bool, true, false, not, ◌&&◌,
  ◌||◌, List, [], ◌∷◌, ◌++◌, length, take, drop, get_or, arith, Bool-cases, if◌then◌else◌,
}
use os.Pipe.{
  Pipe, returns, fails, sleeps, Section, readers, writers, pipesize, put, is_full, is_empty,
  pipewrite, copy_out, piperead,
}
use os.Pipe.Ring.{
  IsValid, contents, put-IsValid, contents-put, is_full_iff, advanced, advanced-IsValid,
  contents-advanced, contents_empty,
}

-- How `pipewrite` ends with `ys` left: it is through; or the pipe is full, and the caller sleeps if
-- the read end is open and it was not killed, and fails if not.
abbrev pub WriteEnds : Bool → ℕ → Pipe → List ℕ → Section ℕ → Type 0
WriteEnds killed n p ys s =
    ((ys ≡ []) × (s.outcome ≡ returns n) × (s.woken ≡ readers ∷ []))
    ⊎ ((ys ≢ [])
        × (length (contents s.pipe) ≡ pipesize)
        × (((p.readopen ≡ true)
              × (killed ≡ false)
              × (s.outcome ≡ sleeps ys)
              × (s.woken ≡ readers ∷ []))
            ⊎ (((p.readopen ≡ false) ⊎ (killed ≡ true)) × (s.outcome ≡ fails) × (s.woken ≡ []))))

-- The section `s` has appended a first part of `src` to what `p` held.
abbrev pub Wrote : Bool → ℕ → Pipe → List ℕ → Section ℕ → Type 0
Wrote killed n p src s =
    IsValid s.pipe
    × (s.pipe.nread ≡ p.nread)
    × ((xs : List ℕ) × (ys : List ℕ) × (src ≡ xs ++ ys)
        × (contents s.pipe ≡ contents p ++ xs)
        × WriteEnds killed n p ys s)

Wrote-cons :
    (killed : Bool) (n b : ℕ) (p : Pipe) (bs : List ℕ) (s : Section ℕ)
    → IsValid p
    → is_full p ≡ false
    → Wrote killed n (put p b) bs s
    → Wrote killed n p (b ∷ bs) s
Wrote-cons killed n b p bs s v free (v', same, (xs, ys, e, c, ends)) = (
  v',
  same ∙ (unfold put in refl),
  (
    b ∷ xs,
    ys,
    ap (λ l. b ∷ l) e,
    c ∙ ap (λ l. l ++ xs) (contents-put p b v free) ∙ append_assoc (contents p) (b ∷ []) xs,
    (unfold put in ends),
  ),
)

-- On a valid pipe, a section of `pipewrite` appends a first part of the bytes, in order, and moves
-- no other byte. It stops early only at a full pipe.
pub pipewrite_lem :
    (killed : Bool) (n : ℕ) (p : Pipe) (src : List ℕ)
    → IsValid p
    → Wrote killed n p src (pipewrite killed n p src)
unfolding pipewrite
pipewrite_lem killed n p [] v =
    (v, refl, ([], [], refl, sym (append-nil (contents p)), inl (refl, refl, refl)))
pipewrite_lem killed n p (b ∷ bs) v = elim (Bool-cases (is_full p)) [
  | inl full ↦ elim (Bool-cases (not p.readopen || killed)) [
    | inl no_use ↦
        rw (full, no_use)
          (
            v,
            refl,
            (
              [],
              b ∷ bs,
              refl,
              sym (append-nil (contents p)),
              inr ((λ e. cc), (is_full_iff p v).0 full, inr (ground arith, refl, refl)),
            ),
          )
    | inr wait ↦
        rw (full, wait)
          (
            v,
            refl,
            (
              [],
              b ∷ bs,
              refl,
              sym (append-nil (contents p)),
              inr (
                (λ e. cc),
                (is_full_iff p v).0 full,
                inl (ground arith, ground arith, refl, refl),
              ),
            ),
          )
  ]
  | inr free ↦ rw free (
      Wrote-cons killed n b p bs (pipewrite killed n (put p b) bs) v free
        (pipewrite_lem killed n (put p b) bs (put-IsValid p b v free)))
]

-- The bytes that `copy_out` takes are the oldest, up to `n` of them.
copy_out_lem :
    (n : ℕ) (p : Pipe)
    → IsValid p
    → ((copy_out n p).0 ≡ take n (contents p))
      × (contents (copy_out n p).1 ≡ drop n (contents p))
      × IsValid (copy_out n p).1
unfolding copy_out
copy_out_lem zero p v = (refl, refl, v)
copy_out_lem (suc n) p v = elim (Bool-cases (is_empty p)) [
  | inl none_left ↦ rw (none_left, contents_empty p v none_left) (refl, refl, v)
  | inr some_left ↦
      let (out, left, v') = copy_out_lem n (advanced p) (advanced-IsValid p v some_left) in
      rw (some_left, contents-advanced p v some_left)
        (ap (λ l. get_or p.bytes (p.nread % pipesize) 0 ∷ l) out, left, v')
]

-- A section of `piperead` on a valid pipe: if it is empty and its write end is open, the call fails
-- if the caller was killed and sleeps if not, and takes nothing; else it returns the oldest bytes,
-- up to `n` of them and in order, leaves the rest, and wakes the writers.
pub piperead_lem :
    (killed : Bool) (p : Pipe) (n : ℕ)
    → IsValid p
    → let s = piperead killed p n in
      ((contents p ≡ [])
        × (p.writeopen ≡ true)
        × (s.pipe ≡ p)
        × (s.outcome ≡ (if killed then fails else sleeps []))
        × (s.woken ≡ []))
      ⊎ (((contents p ≢ []) ⊎ (p.writeopen ≡ false))
          × IsValid s.pipe
          × (s.outcome ≡ returns (take n (contents p)))
          × (contents s.pipe ≡ drop n (contents p))
          × (s.woken ≡ writers ∷ []))
unfolding piperead
piperead_lem killed p n v = elim (Bool-cases (is_empty p && p.writeopen)) [
  | inl wait ↦ elim (Bool-cases killed) [
    | inl k ↦ rw (wait, k) (inl (contents_empty p v (ground arith), ground arith, refl, refl, refl))
    | inr k ↦ rw (wait, k) (inl (contents_empty p v (ground arith), ground arith, refl, refl, refl))
  ]
  | inr go ↦
      let (out, left, v') = copy_out_lem n p v in
      rw go (inr (some_left go (Bool-cases (is_empty p)), v', ap returns out, left, refl))
]
  where
    some_left :
        (is_empty p && p.writeopen) ≡ false
        → (is_empty p ≡ true) ⊎ (is_empty p ≡ false)
        → (contents p ≢ []) ⊎ (p.writeopen ≡ false)
    some_left go (inl none_left) = inr (ground arith)
    some_left go (inr some_more) =
        let first = contents-advanced p v some_more in inl (λ e. cc (sym first ∙ e))
