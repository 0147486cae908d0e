-- ===== src/Grep.antt =====
-- grep.c: the pattern matcher, and the loop that finds lines in what was read. A C string is the list
-- of its bytes before the NUL. The matcher's functions call one another; `matchstar` is given
-- `matchhere` on the pattern behind the star.
pub mod Matches
pub mod Chunks
mod Tests
use os.Base.{
  ℕ, zero, suc, Bool, true, false, ◌&&◌, ◌||◌, List, [], ◌∷◌, ◌++◌, ◌==◌, if◌then◌else◌, length,
  ◌+◌,
}

abbrev pub star : ℕ
star = b'*'

abbrev pub dot : ℕ
dot = b'.'

abbrev pub dollar : ℕ
dollar = b'$'

abbrev pub caret : ℕ
caret = b'^'

abbrev pub newline : ℕ
newline = 10

unfoldable pub matchstar : ℕ → (List ℕ → Bool) → List ℕ → Bool
matchstar c here [] = here []
matchstar c here (x ∷ text) =
    let rest : Bool = matchstar c here text in
    if here (x ∷ text) then true else if x == c || c == dot then rest else false

-- A first byte that is no operator, against the text, with what matches behind both.
abbrev pub matchbyte : ℕ → (List ℕ → Bool) → List ℕ → Bool
matchbyte c here [] = false
matchbyte c here (x ∷ text) = if c == dot || c == x then here text else false

abbrev pub at_end : List ℕ → Bool
at_end [] = true
at_end (x ∷ text) = false

unfoldable pub matchhere : List ℕ → List ℕ → Bool
unfolding matchstar
matchhere [] text = true
matchhere (c ∷ []) text = if c == dollar then at_end text else matchbyte c (λ t. true) text
matchhere (c ∷ d ∷ re) text =
    if d == star then matchstar c (matchhere re) text else matchbyte c (matchhere (d ∷ re)) text

-- The loop of `match` over the places of the text.
unfoldable pub search_from : List ℕ → List ℕ → Bool
unfolding matchhere
search_from re [] = matchhere re []
search_from re (x ∷ text) = if matchhere re (x ∷ text) then true else search_from re text

unfoldable pub matches : List ℕ → List ℕ → Bool
unfolding matchhere search_from
matches [] text = search_from [] text
matches (c ∷ re) text = if c == caret then matchhere re text else search_from (c ∷ re) text

-- The first line and what is behind its newline, if there is a newline (`strchr`).
pub data Cut : Type 0 where
  whole : List ℕ → List ℕ → Cut
  partial : List ℕ → Cut

abbrev pub add_byte : ℕ → Cut → Cut
add_byte x (whole line rest) = whole (x ∷ line) rest
add_byte x (partial line) = partial (x ∷ line)

unfoldable pub cut : List ℕ → Cut
cut [] = partial []
cut (x ∷ xs) =
    let rest : Cut = cut xs in
    if x == newline then whole [] xs else if x == 0 then partial [] else add_byte x rest

-- The inner loop of `grep`: what is written for the lines of the buffer, and what is left at the end.
-- It has fuel, one for each byte.
unfoldable pub scan_lines : ℕ → List ℕ → List ℕ → List ℕ × List ℕ
unfolding matches cut
scan_lines zero pattern buf = ([], buf)
scan_lines (suc fuel) pattern buf = elim (cut buf) [
  | partial line ↦ ([], buf)
  | whole line rest ↦
      let (out, left) = scan_lines fuel pattern rest in
      ((if matches pattern line then line ++ (newline ∷ out) else out), left)
]

-- What a round of `grep`'s outer loop does with the buffer. `if(p == buf) m = 0;` empties one without
-- a newline.
unfoldable pub take_lines : List ℕ → List ℕ → List ℕ × List ℕ
unfolding scan_lines
take_lines pattern buf = elim (cut buf) [
  | partial line ↦ ([], [])
  | whole line rest ↦ scan_lines (length buf + 1) pattern buf
]

-- `read` gave the bytes `chunk`, behind the bytes `left` in the buffer.
unfoldable pub grep_round : List ℕ → List ℕ → List ℕ → List ℕ × List ℕ
unfolding take_lines
grep_round pattern left chunk = take_lines pattern (left ++ chunk)
