-- ===== src/Console/Tests.antt =====
-- A console, typed on and read from.
use os.Base.{ℕ, ◌+◌, ◌*◌, ◌<◌, ◌≡◌, false, [], ◌∷◌, List, refl, replicate, arith}
use os.Base.Int.{pos}
use os.Base.Result.{ok}
use os.Console.{Console, Input, Screen, done, newline, consolewrite, consoleintr, consoleread}
use os.Console.Cursor.{consolewrite_lem}
use os.Console.Line.{line, IsValid, IsGood}
use os.Console.Keys.{type_keys, consoleintr_lem}
use os.Console.Reads.{consoleread-line}

abbrev blank : Screen
blank = record { cursor = 1910; crt = λ j. 0; serial = [] }

abbrev idle : Console
idle = record {
  input = record { buf = replicate 128 0; r = 4294967290; w = 4294967290; e = 4294967290 };
  screen = blank;
  woken = false;
  dump = false;
}

idle-IsGood : IsGood idle
idle-IsGood = record {
  input = record {
    room = refl;
    read_word = omega arith;
    write_word = omega arith;
    edit_word = omega arith;
    order = omega arith;
    fits = omega arith;
    one_line = tt;
  };
  screen = omega arith;
}

consolewrite_lem_example :
    (t : Screen) × (consolewrite (b'o' ∷ b'k' ∷ newline ∷ []) blank ≡ ok t) × (t.cursor < 24 * 80)
consolewrite_lem_example = consolewrite_lem (b'o' ∷ b'k' ∷ newline ∷ []) blank (omega arith)

-- "lx", backspace, "s", return, "a", ^U, "p"
abbrev keys : List ℕ
keys = b'l' ∷ b'x' ∷ 8 ∷ b's' ∷ 13 ∷ b'a' ∷ 21 ∷ b'p' ∷ []

consoleintr_lem_example :
    (d : Console) × (consoleintr keys idle ≡ ok d)
    × IsGood d
    × (line d.input ≡ type_keys keys (line idle.input))
consoleintr_lem_example = consoleintr_lem keys idle (omega arith) idle-IsGood

edited :
    type_keys keys (line idle.input)
    ≡ record { ready = b'l' ∷ b's' ∷ newline ∷ []; typing = b'p' ∷ [] }
edited = refl

abbrev typed_in : Input
typed_in = record {
  buf = b'l' ∷ b's' ∷ newline ∷ b'p' ∷ replicate 124 0;
  r = 128;
  w = 131;
  e = 132;
}

typed_in-IsValid : IsValid typed_in
typed_in-IsValid = record {
  room = refl;
  read_word = omega arith;
  write_word = omega arith;
  edit_word = omega arith;
  order = omega arith;
  fits = omega arith;
  one_line = omega arith;
}

consoleread-line_example :
    (j : Input) × (consoleread false 10 10 typed_in
      ≡ (done, pos (2 + 1), b'l' ∷ b's' ∷ newline ∷ [], j))
    × IsValid j
    × ((line j).ready ≡ [])
    × ((line j).typing ≡ b'p' ∷ [])
consoleread-line_example =
    consoleread-line false 10 (b'l' ∷ b's' ∷ []) [] typed_in typed_in-IsValid refl (omega arith)
      (omega arith)
