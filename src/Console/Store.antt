-- ===== src/Console/Store.antt =====
-- console.c: a typed character in the input buffer, and the line handed over to the readers.
use os.Base.{
  ℕ, suc, ◌+◌, ◌%◌, ◌<◌, ◌≡◌, ◌≢◌, ap, ◌∙◌, List, [], ◌∷◌, ◌++◌, length, get_or, set, length-set,
  get_or-set_self, arith,
}
use os.Machine.{add32, sub32}
use os.Console.{Input, newline, input_buf}
use os.Console.Window.{window, window-suc, window-add, window-set}
use os.Console.Line.{line, IsValid, append-NoNewline}

-- The input after a typed character `k`, before the line is handed over.
abbrev pub stored : ℕ → Input → Input
stored k i = record i { buf = set i.buf (i.e % input_buf) (k % 256); e = add32 i.e 1 }

module _ (k : ℕ) (i : Input) (v : IsValid i) (small : k < 256)
    (free : sub32 i.e i.r < input_buf) where
  pub ready-stored : (line (stored k i)).ready ≡ (line i).ready
  ready-stored =
      window-set i.buf (k % 256) i.r (sub32 i.w i.r) i.e (sub32 i.e i.w) v.read_word (omega arith)
        (omega arith)

  pub typing-stored : (line (stored k i)).typing ≡ (line i).typing ++ (k ∷ [])
  typing-stored =
      let n : ℕ = sub32 i.e i.w in
      let one_more : sub32 (add32 i.e 1) i.w ≡ suc n = omega arith in
      let here : add32 i.w n ≡ i.e = omega arith in
      let whole : k % 256 ≡ k = omega arith in
      let room : i.e % input_buf < length i.buf = omega arith in
      let new : get_or (stored k i).buf (add32 i.w n % input_buf) 0 ≡ k =
        ap (λ (x : ℕ). get_or (stored k i).buf (x % input_buf) 0) here
        ∙ get_or-set_self i.buf (i.e % input_buf) (k % 256) 0 room
        ∙ whole in
      let old : window (stored k i).buf i.w n ≡ window i.buf i.w n =
        window-set i.buf (k % 256) i.w n i.e 0 v.write_word (omega arith) (omega arith) in
      ap (window (stored k i).buf i.w) one_more
      ∙ window-suc (stored k i).buf i.w n v.write_word
      ∙ (λ j. old j ++ (new j ∷ []))

  -- All that was typed is handed over.
  pub ready-flushed :
      (line (record (stored k i) { w = add32 i.e 1 })).ready
      ≡ (line i).ready ++ ((line i).typing ++ (k ∷ []))
  ready-flushed =
      let m : ℕ = sub32 i.w i.r in
      let n : ℕ = sub32 (add32 i.e 1) i.w in
      let sum : sub32 (add32 i.e 1) i.r ≡ m + n = omega arith in
      let here : add32 i.r m ≡ i.w = omega arith in
      ap (window (stored k i).buf i.r) sum
      ∙ window-add (stored k i).buf i.r m n v.read_word
      ∙ (λ j. ready-stored j ++ window (stored k i).buf (here j) n)
      ∙ ap (λ (t : List ℕ). (line i).ready ++ t) typing-stored

  pub typing-flushed : (line (record (stored k i) { w = add32 i.e 1 })).typing ≡ []
  typing-flushed =
      let none_left : sub32 (add32 i.e 1) (add32 i.e 1) ≡ 0 = omega arith in
      ap (window (stored k i).buf (add32 i.e 1)) none_left

  pub stored-IsValid : k ≢ newline → IsValid (stored k i)
  stored-IsValid inside = record {
    room = length-set i.buf (i.e % input_buf) (k % 256) ∙ v.room;
    read_word = v.read_word;
    write_word = v.write_word;
    edit_word = omega arith;
    order = omega arith;
    fits = omega arith;
    one_line = rw (typing-stored) (append-NoNewline (line i).typing k v.one_line inside);
  }

  pub flushed-IsValid : IsValid (record (stored k i) { w = add32 i.e 1 })
  flushed-IsValid = record {
    room = length-set i.buf (i.e % input_buf) (k % 256) ∙ v.room;
    read_word = v.read_word;
    write_word = omega arith;
    edit_word = omega arith;
    order = omega arith;
    fits = omega arith;
    one_line = rw (typing-flushed) tt;
  }
