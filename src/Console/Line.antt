-- ===== src/Console/Line.antt =====
-- console.c: the input buffer as the characters for readers and the line that is being typed.
use os.Base.{
  ℕ, suc, ◌+◌, ◌%◌, ◌^◌, ◌≤◌, ◌<◌, ◌≡◌, ◌≢◌, refl, sym, ap, ◌∙◌, Bool, ◌||◌, List, [], ◌∷◌, ◌++◌,
  length, get_or, ◌==◌, leb, if◌then◌else◌, arith,
}
use os.Machine.{add32, sub32}
use os.Console.{Console, Input, newline, control, input_buf}
use os.Console.Cursor.{OnScreen}
use os.Console.Window.{window, window-suc}

-- The characters that a reader may take, and the line that is being typed.
pub record Line : Type 0 where
  pub ready : List ℕ
  pub typing : List ℕ

abbrev pub drop_last : List ℕ → List ℕ
drop_last [] = []
drop_last (x ∷ []) = []
drop_last (x ∷ y ∷ ys) = x ∷ drop_last (y ∷ ys)

abbrev pub ends_line : ℕ → ℕ → Bool
ends_line c total = c == newline || c == control b'D' || total == input_buf

abbrev pub typed : ℕ → Line → Line
typed c l =
    if ends_line c (length l.ready + length l.typing + 1)
    then record { ready = l.ready ++ (l.typing ++ (c ∷ [])); typing = [] }
    else record { ready = l.ready; typing = l.typing ++ (c ∷ []) }

-- What a key does to a line: ^U clears what is being typed, ^H and DEL take its last character; any
-- other key but NUL and ^P is typed if there is room.
abbrev pub type_key : ℕ → Line → Line
type_key key l =
    if key == control b'P'
    then l
    else if key == control b'U'
    then record l { typing = [] }
    else if key == control b'H' || key == 0x7f
    then record l { typing = drop_last l.typing }
    else if key == 0 || leb input_buf (length l.ready + length l.typing)
    then l
    else typed (if key == 13 then newline else key) l

abbrev pub NoNewline : List ℕ → Type 0
NoNewline [] = Unit {0}
NoNewline (x ∷ xs) = (x ≢ newline) × NoNewline xs

abbrev pub line : Input → Line
line i = record {
  ready = window i.buf i.r (sub32 i.w i.r);
  typing = window i.buf i.w (sub32 i.e i.w);
}

-- The counters are in order and at most 128 apart, and no line ends in what is being typed.
pub record IsValid (i : Input) : Type 0 where
  pub room : length i.buf ≡ input_buf
  pub read_word : i.r < 2 ^ 32
  pub write_word : i.w < 2 ^ 32
  pub edit_word : i.e < 2 ^ 32
  pub order : sub32 i.w i.r ≤ sub32 i.e i.r
  pub fits : sub32 i.e i.r ≤ input_buf
  pub one_line : NoNewline (window i.buf i.w (sub32 i.e i.w))

pub record IsGood (c : Console) : Type 0 where
  pub input : IsValid c.input
  pub screen : OnScreen c.screen

pub drop_last-append : (xs : List ℕ) (x : ℕ) → drop_last (xs ++ (x ∷ [])) ≡ xs
drop_last-append [] x = refl
drop_last-append (y ∷ []) x = refl
drop_last-append (y ∷ z ∷ zs) x = ap (λ (l : List ℕ). y ∷ l) (drop_last-append (z ∷ zs) x)

NoNewline-append : (xs : List ℕ) (x : ℕ) → NoNewline (xs ++ (x ∷ [])) → NoNewline xs × (x ≢ newline)
NoNewline-append [] x h = (tt, h.0)
NoNewline-append (y ∷ ys) x h = let (rest, last) = NoNewline-append ys x h.1 in ((h.0, rest), last)

pub append-NoNewline :
    (xs : List ℕ) (x : ℕ) → NoNewline xs → x ≢ newline → NoNewline (xs ++ (x ∷ []))
append-NoNewline [] x h k = (k, tt)
append-NoNewline (y ∷ ys) x h k = (h.0, append-NoNewline ys x h.1 k)

-- What the line is when the edit counter steps back.
module _ (i : Input) (v : IsValid i) (some_typed : i.e ≢ i.w) where
  abbrev pub stepped : Input
  stepped = record i { e = sub32 i.e 1 }

  abbrev pub last : ℕ
  last = get_or i.buf (sub32 i.e 1 % input_buf) 0

  pub typing_last : (line i).typing ≡ (line stepped).typing ++ (last ∷ [])
  typing_last =
      let open_fields : (i.e < 2 ^ 32) × (i.w < 2 ^ 32) = (v.edit_word, v.write_word) in
      let one_more : sub32 i.e i.w ≡ suc (sub32 (sub32 i.e 1) i.w) = omega arith in
      let here : sub32 i.e 1 ≡ add32 i.w (sub32 (sub32 i.e 1) i.w) = omega arith in
      let at : get_or i.buf (add32 i.w (sub32 (sub32 i.e 1) i.w) % input_buf) 0 ≡ last =
        ap (λ (x : ℕ). get_or i.buf (x % input_buf) 0) (sym here) in
      ap (window i.buf i.w) one_more
      ∙ window-suc i.buf i.w (sub32 (sub32 i.e 1) i.w) v.write_word
      ∙ ap (λ (x : ℕ). window i.buf i.w (sub32 (sub32 i.e 1) i.w) ++ (x ∷ [])) at

  pub no_newline : NoNewline (line stepped).typing × (last ≢ newline)
  no_newline = NoNewline-append (line stepped).typing last (rw (← typing_last) v.one_line)

  pub stepped-IsValid : IsValid stepped
  stepped-IsValid =
      let words : (i.r < 2 ^ 32) × (i.e < 2 ^ 32) × (i.w < 2 ^ 32) =
        (v.read_word, v.edit_word, v.write_word) in
      let bounds : (sub32 i.w i.r ≤ sub32 i.e i.r) × (sub32 i.e i.r ≤ input_buf) =
        (v.order, v.fits) in
      record {
        room = v.room;
        read_word = v.read_word;
        write_word = v.write_word;
        edit_word = omega arith;
        order = omega arith;
        fits = omega arith;
        one_line = no_newline.0;
      }
