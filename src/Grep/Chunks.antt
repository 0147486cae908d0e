-- ===== src/Grep/Chunks.antt =====
-- grep.c: the loop of `grep` over what `read` gives.
use os.Base.{
  ℕ, ◌⊎◌, inl, inr, Bool-cases, ◌==◌, zero, suc, ◌+◌, ◌<◌, ◌≡◌, ◌≢◌, refl, ap, ◌∙◌, List, [], ◌∷◌,
  ◌++◌, if◌then◌else◌, length, length-append, arith,
}
use os.Grep.{newline, matches, whole, partial, cut, scan_lines, take_lines, grep_round}

-- No byte is a newline or NUL: the text of a line.
abbrev pub IsText : List ℕ → Type 0
IsText [] = Unit {0}
IsText (x ∷ xs) = (x ≢ newline) × (x ≢ 0) × IsText xs

-- No newline that `strchr` finds, which stops at a NUL.
abbrev pub HasNoLine : List ℕ → Type 0
HasNoLine [] = Unit {0}
HasNoLine (x ∷ xs) = (x ≢ newline) × ((x ≡ 0) ⊎ HasNoLine xs)

-- What `grep` prints for lines: those that match, each with its newline.
abbrev pub printed : List ℕ → List (List ℕ) → List ℕ
printed pattern [] = []
printed pattern (line ∷ lines) =
    if matches pattern line
    then line ++ (newline ∷ printed pattern lines)
    else printed pattern lines

-- The bytes of lines, and of what is left of one without a newline.
abbrev pub joined : List (List ℕ) → List ℕ → List ℕ
joined [] left = left
joined (line ∷ lines) left = line ++ (newline ∷ joined lines left)

abbrev pub AreLines : List (List ℕ) → Type 0
AreLines [] = Unit {0}
AreLines (line ∷ lines) = IsText line × AreLines lines

cut_partial : (xs : List ℕ) → HasNoLine xs → (line : List ℕ) × (cut xs ≡ partial line)
unfolding cut
cut_partial [] h = ([], refl)
cut_partial (x ∷ xs) (other, inl nul) = ([], ground (arith, other, nul))
cut_partial (x ∷ xs) (other, inr h) = elim (Bool-cases (x == 0)) [
  | inl nul ↦ ([], ground (arith, other, nul))
  | inr byte ↦ let (line, e) = cut_partial xs h in (x ∷ line, ground (arith, other, byte, e))
]

cut_whole : (line rest : List ℕ) → IsText line → cut (line ++ (newline ∷ rest)) ≡ whole line rest
unfolding cut
cut_whole [] rest h = refl
cut_whole (x ∷ line) rest h = ground (arith, cut_whole line rest h.2)

-- The inner loop prints the matching lines of the buffer, in order, and leaves what is behind the
-- last newline. Fuel for each byte is enough.
pub scan_lines_lem :
    (fuel : ℕ) (pattern left : List ℕ) (lines : List (List ℕ))
    → AreLines lines
    → HasNoLine left
    → length (joined lines left) < fuel
    → scan_lines fuel pattern (joined lines left) ≡ (printed pattern lines, left)
unfolding scan_lines
scan_lines_lem zero pattern left lines a n h = absurd (omega arith)
scan_lines_lem (suc fuel) pattern left [] a n h = rw ((cut_partial left n).1, scan_lines) refl
scan_lines_lem (suc fuel) pattern left (line ∷ lines) a n h =
    let shorter : length (joined lines left) < fuel =
      omega (arith, length-append line (newline ∷ joined lines left)) in
    rw
      (
        cut_whole line (joined lines left) a.0,
        scan_lines,
        scan_lines_lem fuel pattern left lines a.1 n shorter,
      )
      refl

abbrev pub left_after : List (List ℕ) → List ℕ → List ℕ
left_after [] rest = []
left_after (line ∷ lines) rest = rest

take_lines_lem :
    (pattern rest : List ℕ) (lines : List (List ℕ))
    → AreLines lines
    → HasNoLine rest
    → take_lines pattern (joined lines rest) ≡ (printed pattern lines, left_after lines rest)
unfolding take_lines
take_lines_lem pattern rest [] a n = rw (take_lines, (cut_partial rest n).1) refl
take_lines_lem pattern rest (line ∷ lines) a n =
    rw (take_lines, cut_whole line (joined lines rest) a.0)
      (scan_lines_lem (length (joined (line ∷ lines) rest) + 1) pattern rest (line ∷ lines) a n
        (omega arith))

-- A round of `grep` prints the matching ones of the lines that the buffer and the bytes read make up
-- to the first NUL, and keeps what is behind the last newline before it for the next round. But if
-- there is no newline yet, all bytes are dropped.
pub grep_round_lem :
    (pattern left chunk rest : List ℕ) (lines : List (List ℕ))
    → AreLines lines
    → HasNoLine rest
    → left ++ chunk ≡ joined lines rest
    → grep_round pattern left chunk ≡ (printed pattern lines, left_after lines rest)
unfolding grep_round
grep_round_lem pattern left chunk rest lines a n e =
    ap (take_lines pattern) e ∙ take_lines_lem pattern rest lines a n
