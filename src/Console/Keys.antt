-- ===== src/Console/Keys.antt =====
-- console.c: `consoleintr` edits a line as `type_key` says.
use os.Base.{
  ℕ, zero, suc, ◌+◌, ◌^◌, ◌<◌, ◌≡◌, ◌≢◌, refl, sym, ap, ◌∙◌, inl, inr, true, false, not, ◌||◌, List,
  [], ◌∷◌, length, ◌==◌, ltb, leb, if◌then◌else◌, Bool-cases, arith,
}
use os.Base.Result.{Result, ok, ◌>>=◌}
use os.Machine.{add32, sub32}
use os.Console.{
  Console, Input, backspace, newline, control, input_buf, consputc, erase, kill_line, insert,
  on_key, consoleintr,
}
use os.Console.Cursor.{OnScreen, consputc_ends}
use os.Console.Window.{window, length-window}
use os.Console.Line.{
  Line, drop_last, ends_line, typed, type_key, line, IsValid, IsGood, drop_last-append, stepped,
  last, typing_last, no_newline, stepped-IsValid,
}
use os.Console.Store.{
  stored, ready-stored, typing-stored, ready-flushed, typing-flushed, stored-IsValid,
  flushed-IsValid,
}

-- The console with the edit counter one back.
erase_lem :
    (c : Console) (g : IsGood c)
    → c.input.e ≢ c.input.w
    → (d : Console) × (erase c ≡ ok d)
      × (d.input ≡ record (c.input) { e = sub32 c.input.e 1 })
      × OnScreen d.screen
unfolding erase
erase_lem c g h =
    let (t, put, on) = consputc_ends backspace c.screen g.screen in
    (
      record c { input = record (c.input) { e = sub32 c.input.e 1 }; screen = t },
      rw (put) refl,
      refl,
      on,
    )

-- What a handler does to a console: it succeeds, keeps the console in order, and changes the line so.
abbrev Edits : Console → Result Console → Line → Type 0
Edits c m l = (d : Console) × (m ≡ ok d) × IsGood d × (line d.input ≡ l)

erase-Edits :
    (c : Console)
    → IsGood c
    → c.input.e ≢ c.input.w
    → Edits c (erase c) (record (line c.input) { typing = drop_last (line c.input).typing })
erase-Edits c g h =
    let (d, done, e, on) = erase_lem c g h in
    let shorter : drop_last (line c.input).typing ≡ (line (stepped c.input g.input h)).typing =
      ap drop_last (typing_last c.input g.input h)
      ∙ drop_last-append (line (stepped c.input g.input h)).typing (last c.input g.input h) in
    (
      d,
      done,
      record { input = rw (e) (stepped-IsValid c.input g.input h); screen = on },
      ap line e ∙ ap (λ (t : List ℕ). record (line c.input) { typing = t }) (sym shorter),
    )

kill_line-Edits :
    (n : ℕ) (c : Console)
    → IsGood c
    → sub32 c.input.e c.input.w ≡ n
    → Edits c (kill_line n c) (record (line c.input) { typing = [] })
unfolding kill_line
kill_line-Edits zero c g e =
    let words : (c.input.e < 2 ^ 32) × (c.input.w < 2 ^ 32) =
      (g.input.edit_word, g.input.write_word) in
    let same : (c.input.e == c.input.w) ≡ true = ground arith in
    (
      c,
      rw (same) refl,
      g,
      ap (λ (k : ℕ). record (line c.input) { typing = window c.input.buf c.input.w k }) e,
    )
kill_line-Edits (suc n) c g e =
    let ne : c.input.e ≢ c.input.w = λ (same : c.input.e ≡ c.input.w). omega arith in
    let (d, done, e', on) = erase_lem c g ne in
    let i : Input = stepped c.input g.input ne in
    let more : (c.input.e == c.input.w) ≡ false = ground arith in
    let inside : last c.input g.input ne ≢ newline = (no_newline c.input g.input ne).1 in
    let no_end : (last c.input g.input ne == newline) ≡ false = ground arith in
    let left : sub32 i.e i.w ≡ n = omega arith in
    let (d', rest, good, cleared) =
      kill_line-Edits n d
        (record { input = rw (e') (stepped-IsValid c.input g.input ne); screen = on })
        (rw (e') left) in
    (
      d',
      rw (more, no_end, done) rest,
      good,
      cleared ∙ ap (λ (j : Input). record (line j) { typing = [] }) e',
    )

-- A counter test of the code is one on the number of characters.
module _ (i : Input) (v : IsValid i) where
  total : length (line i).ready + length (line i).typing ≡ sub32 i.e i.r
  total =
      omega
        (arith, length-window i.buf i.r (sub32 i.w i.r), length-window i.buf i.w (sub32 i.e i.w))

  full :
      leb input_buf (length (line i).ready + length (line i).typing)
      ≡ not (ltb (sub32 i.e i.r) input_buf)
  full = rw (total) (ground arith)

  at_end :
      sub32 i.e i.r < input_buf
      → (add32 i.e 1 == add32 i.r input_buf)
        ≡ (length (line i).ready + length (line i).typing + 1 == input_buf)
  at_end free = rw (total) (elim (Bool-cases (sub32 i.e i.r + 1 == input_buf)) [
    | inl yes_end ↦
        let e : add32 i.e 1 ≡ add32 i.r input_buf = ground arith in rw (yes_end) (ground arith)
    | inr not_end ↦
        let ne : add32 i.e 1 ≢ add32 i.r input_buf = λ same. absurd (ground arith) in
        rw (not_end) (ground arith)
  ])

put-Edits :
    (k : ℕ) (c : Console)
    → IsGood c
    → k < 256
    → sub32 c.input.e c.input.r < input_buf
    → Edits c
        (do
          s ← consputc k c.screen
          if ends_line k (length (line c.input).ready + length (line c.input).typing + 1)
              then ok (record c {
                input = record (stored k c.input) { w = add32 c.input.e 1 };
                screen = s;
                woken = true;
              })
              else ok (record c { input = stored k c.input; screen = s }))
        (typed k (line c.input))
put-Edits k c g small free =
    let (t, put, on) = consputc_ends k c.screen g.screen in
    elim (Bool-cases
      (ends_line k (length (line c.input).ready + length (line c.input).typing + 1))) [
        | inl ends ↦ (
          record c {
            input = record (stored k c.input) { w = add32 c.input.e 1 };
            screen = t;
            woken = true;
          },
          rw (put, ends) refl,
          record { input = flushed-IsValid k c.input g.input small free; screen = on },
          rw (ends) (λ j. record {
            ready = ready-flushed k c.input g.input small free j;
            typing = typing-flushed k c.input g.input small free j;
          }),
        )
        | inr goes_on ↦
            let inside : k ≢ newline = ground arith in
            (
              record c { input = stored k c.input; screen = t },
              rw (put, goes_on) refl,
              record { input = stored-IsValid k c.input g.input small free inside; screen = on },
              rw (goes_on) (λ j. record {
                ready = ready-stored k c.input g.input small free j;
                typing = typing-stored k c.input g.input small free j;
              }),
            )
      ]

insert-Edits :
    (key : ℕ) (c : Console)
    → IsGood c
    → key < 256
    → Edits c (insert key c) (
        if key == 0 || leb input_buf (length (line c.input).ready + length (line c.input).typing)
        then line c.input
        else typed (if key == 13 then newline else key) (line c.input))
unfolding insert
insert-Edits key c g small =
    let k : ℕ = if key == 13 then newline else key in
    elim (Bool-cases (key == 0)) [
      | inl nul ↦ rw (nul) (c, refl, g, refl)
      | inr some_key ↦ elim (Bool-cases (ltb (sub32 c.input.e c.input.r) input_buf)) [
        | inr is_full ↦ rw (some_key, full c.input g.input, is_full) (c, refl, g, refl)
        | inl room ↦
            rw (some_key, full c.input g.input, room, at_end c.input g.input (ground arith))
              (put-Edits k c g (ground arith) (ground arith))
      ]
    ]

erase_key-Edits :
    (c : Console)
    → IsGood c
    → Edits c
        (if c.input.e == c.input.w then ok c else erase c)
        (record (line c.input) { typing = drop_last (line c.input).typing })
erase_key-Edits c g = elim (Bool-cases (c.input.e == c.input.w)) [
  | inr more ↦ rw (more) (erase-Edits c g (ground arith))
  | inl nothing_typed ↦
      let zero_left : sub32 c.input.e c.input.w ≡ 0 = ground arith in
      let empty : (line c.input).typing ≡ [] = ap (window c.input.buf c.input.w) zero_left in
      rw (nothing_typed) (
        c,
        refl,
        g,
        ap (λ (t : List ℕ). record (line c.input) { typing = t })
            (empty ∙ sym (ap drop_last empty)),
      )
]

on_key-Edits :
    (key : ℕ) (c : Console)
    → IsGood c
    → key < 256
    → Edits c (on_key key c) (type_key key (line c.input))
unfolding on_key
on_key-Edits key c g small = elim (Bool-cases (key == control b'P')) [
  | inl lists ↦
      rw (lists)
        (record c { dump = true }, refl, record { input = g.input; screen = g.screen }, refl)
  | inr not_p ↦ elim (Bool-cases (key == control b'U')) [
    | inl kills ↦ rw (not_p, kills) (kill_line-Edits (sub32 c.input.e c.input.w) c g refl)
    | inr not_u ↦ elim (Bool-cases (key == control b'H' || key == 0x7f)) [
      | inr other ↦ rw (not_p, not_u, other) (insert-Edits key c g small)
      | inl erases ↦ rw (not_p, not_u, erases) (erase_key-Edits c g)
    ]
  ]
]

abbrev pub type_keys : List ℕ → Line → Line
type_keys [] l = l
type_keys (key ∷ keys) l = type_keys keys (type_key key l)

abbrev pub Bytes : List ℕ → Type 0
Bytes [] = Unit {0}
Bytes (x ∷ xs) = (x < 256) × Bytes xs

-- For keys that are bytes, the interrupt handler ends without a panic, keeps the counters of the
-- buffer in order and the cursor on the screen, and edits the lines as the keys say.
pub consoleintr_lem :
    (keys : List ℕ) (c : Console)
    → Bytes keys
    → IsGood c
    → (d : Console) × (consoleintr keys c ≡ ok d)
      × IsGood d
      × (line d.input ≡ type_keys keys (line c.input))
unfolding consoleintr
consoleintr_lem [] c small g = (c, refl, g, refl)
consoleintr_lem (key ∷ keys) c small g =
    let (d, first, good, e) = on_key-Edits key c g small.0 in
    let (d', rest, good', e') = consoleintr_lem keys d small.1 good in
    (d', rw (first) rest, good', e' ∙ ap (type_keys keys) e)
