-- ===== src/Console/Reads.antt =====
-- console.c: `consoleread` takes the characters that are ready, up to the end of a line.
use os.Base.{
  ℕ, zero, suc, ◌+◌, ◌-◌, ◌%◌, ◌<◌, ◌≡◌, ◌≢◌, refl, ap, ◌∙◌, inl, inr, Bool, false, List, [], ◌∷◌,
  ◌++◌, length, length-append, get_or, ◌==◌, ltb, if◌then◌else◌, Bool-cases, arith,
}
use os.Base.Int.{pos}
use os.Machine.{add32, sub32}
use os.Console.{
  Input, Stop, done, blocked, newline, control, input_buf, read_from, returned, consoleread,
}
use os.Console.Window.{window}
use os.Console.Line.{line, IsValid}

-- What a reader that still wants `n` of `target` bytes takes from the characters that are ready.
abbrev pub taken : ℕ → ℕ → List ℕ → Stop × List ℕ × List ℕ
taken zero target ready = (done, [], ready)
taken (suc n) target [] = (blocked, [], [])
taken (suc n) target (c ∷ rest) =
    if c == control b'D'
    then (done, [], if ltb (suc n) target then c ∷ rest else rest)
    else if c == newline
    then (done, c ∷ [], rest)
    else ((taken n target rest).0, c ∷ (taken n target rest).1, (taken n target rest).2)

-- The input with the oldest character taken.
abbrev advanced : Input → Input
advanced i = record i { r = add32 i.r 1 }

module _ (i : Input) (v : IsValid i) (some_left : i.r ≢ i.w) where
  advanced-IsValid : IsValid (advanced i)
  advanced-IsValid = record {
    room = v.room;
    read_word = omega arith;
    write_word = v.write_word;
    edit_word = v.edit_word;
    order = omega arith;
    fits = omega arith;
    one_line = v.one_line;
  }

  ready-advanced : (line i).ready ≡ get_or i.buf (i.r % input_buf) 0 ∷ (line (advanced i)).ready
  ready-advanced =
      let one_less : sub32 i.w i.r ≡ suc (sub32 i.w (add32 i.r 1)) = omega arith in
      ap (window i.buf i.r) one_less

-- A result of `read_from` is what `taken` says of the characters that were ready, in a buffer that is
-- in order, where the line that is being typed is as before.
pub record Takes (i : Input) (t : Stop × List ℕ × List ℕ) (r : Stop × List ℕ × Input) : Type 0 where
  pub same_stop : r.0 ≡ t.0
  pub same_bytes : r.1 ≡ t.1
  pub left : (line (r.2)).ready ≡ t.2
  pub typing_kept : (line (r.2)).typing ≡ (line i).typing
  pub in_order : IsValid (r.2)

pub read_from-Takes :
    (n target : ℕ) (i : Input)
    → IsValid i
    → Takes i (taken n target (line i).ready) (read_from n target i)
unfolding read_from
read_from-Takes zero target i v = record {
  same_stop = refl;
  same_bytes = refl;
  left = refl;
  typing_kept = refl;
  in_order = v;
}
read_from-Takes (suc n) target i v = elim (Bool-cases (i.r == i.w)) [
  | inl none_left ↦
      let empty : (line i).ready ≡ [] =
        ap (window i.buf i.r) (let zero_left : sub32 i.w i.r ≡ 0 = ground arith in zero_left) in
      rw (none_left) (record {
        same_stop = rw (empty) refl;
        same_bytes = rw (empty) refl;
        left = rw (empty) refl;
        typing_kept = refl;
        in_order = v;
      })
  | inr some_left ↦
      let ne : i.r ≢ i.w = ground arith in
      let c : ℕ = get_or i.buf (i.r % input_buf) 0 in
      let next : IsValid (advanced i) = advanced-IsValid i v ne in
      let ih : Takes (advanced i) (taken n target (line (advanced i)).ready)
          (read_from n target (advanced i)) =
        read_from-Takes n target (advanced i) next in
      let head : (line i).ready ≡ c ∷ (line (advanced i)).ready = ready-advanced i v ne in
      elim (Bool-cases (c == control b'D')) [
        | inl eof ↦ elim (Bool-cases (ltb (suc n) target)) [
          | inl later ↦
              rw (some_left, head, eof, later)
                (record {
                  same_stop = refl;
                  same_bytes = refl;
                  left = head;
                  typing_kept = refl;
                  in_order = v;
                })
          | inr first ↦
              rw (some_left, head, eof, first)
                (record {
                  same_stop = refl;
                  same_bytes = refl;
                  left = refl;
                  typing_kept = refl;
                  in_order = next;
                })
        ]
        | inr char ↦ elim (Bool-cases (c == newline)) [
          | inl end ↦
              rw (some_left, head, char, end)
                (record {
                  same_stop = refl;
                  same_bytes = refl;
                  left = refl;
                  typing_kept = refl;
                  in_order = next;
                })
          | inr more ↦
              rw (some_left, head, char, more)
                (record {
                  same_stop = ih.same_stop;
                  same_bytes = ap (λ (l : List ℕ). c ∷ l) ih.same_bytes;
                  left = ih.left;
                  typing_kept = ih.typing_kept;
                  in_order = ih.in_order;
                })
        ]
      ]
]

-- No character ends a line.
abbrev pub Plain : List ℕ → Type 0
Plain [] = Unit {0}
Plain (x ∷ xs) = ((x ≢ newline) × (x ≢ control b'D')) × Plain xs

taken_line :
    (n target : ℕ) (s rest : List ℕ)
    → Plain s
    → length s < n
    → taken n target (s ++ (newline ∷ rest)) ≡ (done, s ++ (newline ∷ []), rest)
taken_line zero target s rest plain short = absurd (omega arith)
taken_line (suc n) target [] rest plain short = refl
taken_line (suc n) target (x ∷ xs) rest plain short =
    let char : (x == control b'D') ≡ false = ground (arith, plain.0) in
    let more : (x == newline) ≡ false = ground (arith, plain.0) in
    rw (char, more)
      (ap (λ (t : Stop × List ℕ × List ℕ). (t.0, x ∷ t.1, t.2))
        (taken_line n target xs rest plain.1 (omega arith)))

-- If a line, with its newline, is ready and there is room for it, a read gives that line and its
-- length, whether or not the reader was killed, and leaves what comes after it.
pub consoleread-line :
    (killed : Bool) (n : ℕ) (s rest : List ℕ) (i : Input)
    → IsValid i
    → (line i).ready ≡ s ++ (newline ∷ rest)
    → Plain s
    → length s < n
    → (j : Input) × (consoleread killed n n i ≡ (done, pos (length s + 1), s ++ (newline ∷ []), j))
      × IsValid j
      × ((line j).ready ≡ rest)
      × ((line j).typing ≡ (line i).typing)
unfolding consoleread
consoleread-line killed n s rest i v starts plain short =
    let t : Takes i (taken n n (line i).ready) (read_from n n i) = read_from-Takes n n i v in
    let e : taken n n (line i).ready ≡ (done, s ++ (newline ∷ []), rest) =
      ap (taken n n) starts ∙ taken_line n n s rest plain short in
    let stop : (read_from n n i).0 ≡ done =
      t.same_stop ∙ ap (λ (x : Stop × List ℕ × List ℕ). x.0) e in
    let bytes : (read_from n n i).1 ≡ s ++ (newline ∷ []) =
      t.same_bytes ∙ ap (λ (x : Stop × List ℕ × List ℕ). x.1) e in
    let total : n - n + length (s ++ (newline ∷ [])) ≡ length s + 1 =
      omega (arith, length-append s (newline ∷ [])) in
    (
      (read_from n n i).2,
      (λ k. returned killed (stop k) (n - n + length (bytes k)) (bytes k) (read_from n n i).2)
          ∙ ap (λ (m : ℕ). (done, pos m, s ++ (newline ∷ []), (read_from n n i).2)) total,
      t.in_order,
      t.left ∙ ap (λ (x : Stop × List ℕ × List ℕ). x.2) e,
      t.typing_kept,
    )
