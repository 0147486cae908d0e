-- ===== src/Console.antt =====
-- console.c: the screen and the line editor. The characters that the serial port is given are a list.
-- A round of `consoleread` runs up to its return or its next sleep. The keys are what `getc` gives
-- before -1. The lock of the console, and the halt of a kernel that has panicked, are left out.
pub mod Cursor
pub mod Window
pub mod Line
pub mod Store
pub mod Keys
pub mod Reads
mod Tests
use os.Base.{
  ℕ, zero, suc, ◌+◌, ◌-◌, ◌*◌, ◌/◌, ◌%◌, ◌^◌, Bool, true, false, not, ◌&&◌, ◌||◌, List, [], ◌∷◌,
  ◌++◌, ◌==◌, ltb, leb, if◌then◌else◌, get_or, set, length,
}
use os.Base.Int.{ℤ, pos, minus_one}
use os.Base.Result.{Result, ok, panic, fault, ◌>>=◌}
use os.Machine.{add32, sub32}

-- `BACKSPACE`, which is no character
abbrev pub backspace : ℕ
backspace = 0x100

abbrev pub newline : ℕ
newline = 10

-- The CGA memory by cells, the cursor, and what the serial port was given.
pub record Screen : Type 0 where
  pub cursor : ℕ
  pub crt : ℕ → ℕ
  pub serial : List ℕ

abbrev pub set_cell : (ℕ → ℕ) → ℕ → ℕ → ℕ → ℕ
set_cell crt i v j = if j == i then v else crt j

-- The cursor and the cells after the character, before the screen scrolls.
unfoldable pub place : ℕ → Screen → ℕ × (ℕ → ℕ)
place c s =
    if c == newline
    then (s.cursor + (80 - s.cursor % 80), s.crt)
    else if c == backspace
    then (s.cursor - 1, s.crt)
    else (s.cursor + 1, set_cell s.crt s.cursor (c % 256 + 0x700))

-- The cells after `memmove` and `memset`, with the cursor at `p`.
unfoldable pub scrolled : (ℕ → ℕ) → ℕ → ℕ → ℕ
scrolled crt p j =
    if leb p j && ltb j (24 * 80) then 0 else if ltb j (23 * 80) then crt (j + 80) else crt j

unfoldable pub cgaputc : ℕ → Screen → Result Screen
unfolding place scrolled
cgaputc c s =
    let (p, crt) = place c s in
    if ltb (25 * 80) p
    then panic "pos under/overflow"
    else if leb 24 (p / 80)
    then ok (record s { cursor = p - 80; crt = set_cell (scrolled crt (p - 80)) (p - 80) 0x720 })
    else ok (record s { cursor = p; crt = set_cell crt p 0x720 })

-- A backspace goes to the serial port as backspace, blank, backspace.
unfoldable pub consputc : ℕ → Screen → Result Screen
unfolding cgaputc
consputc c s =
    let bytes : List ℕ = if c == backspace then 8 ∷ 32 ∷ 8 ∷ [] else c ∷ [] in
    cgaputc c (record s { serial = s.serial ++ bytes })

-- The loop of `consolewrite`.
unfoldable pub consolewrite : List ℕ → Screen → Result Screen
unfolding consputc
consolewrite [] s = ok s
consolewrite (b ∷ bs) s = do s' ← consputc (b % 256) s; consolewrite bs s'

abbrev pub input_buf : ℕ
input_buf = 128

pub record Input : Type 0 where
  pub buf : List ℕ
  pub r : ℕ
  pub w : ℕ
  pub e : ℕ

-- `woken`: `wakeup(&input.r)` was called; `dump`: `procdump` is to be called.
pub record Console : Type 0 where
  pub input : Input
  pub screen : Screen
  pub woken : Bool
  pub dump : Bool

-- `C(x)`
abbrev pub control : ℕ → ℕ
control x = x - 64

-- `input.e--; consputc(BACKSPACE);`
unfoldable pub erase : Console → Result Console
unfolding consputc
erase c = do
  s ← consputc backspace c.screen
  ok (record c { input = record (c.input) { e = sub32 c.input.e 1 }; screen = s })

-- The loop of ^U, of at most `fuel` rounds.
unfoldable pub kill_line : ℕ → Console → Result Console
unfolding erase
kill_line zero c = if c.input.e == c.input.w then ok c else fault
kill_line (suc fuel) c =
    if c.input.e == c.input.w || get_or c.input.buf (sub32 c.input.e 1 % input_buf) 0 == newline
    then ok c
    else (do c' ← erase c; kill_line fuel c')

-- A key that is none of the editing keys.
unfoldable pub insert : ℕ → Console → Result Console
unfolding consputc
insert key c =
    let i : Input = c.input in
    let k : ℕ = if key == 13 then newline else key in
    let e' : ℕ = add32 i.e 1 in
    let i' : Input = record i { buf = set i.buf (i.e % input_buf) (k % 256); e = e' } in
    if not (key == 0) && ltb (sub32 i.e i.r) input_buf
    then (do
      s ← consputc k c.screen
      if k == newline || k == control b'D' || e' == add32 i.r input_buf
          then ok (record c { input = record i' { w = e' }; screen = s; woken = true })
          else ok (record c { input = i'; screen = s }))
    else ok c

-- A round of `consoleintr`.
unfoldable pub on_key : ℕ → Console → Result Console
unfolding kill_line erase insert
on_key key c =
    if key == control b'P'
    then ok (record c { dump = true })
    else if key == control b'U'
    then kill_line (sub32 c.input.e c.input.w) c
    else if key == control b'H' || key == 0x7f
    then if c.input.e == c.input.w then ok c else erase c
    else insert key c

unfoldable pub consoleintr : List ℕ → Console → Result Console
unfolding on_key
consoleintr [] c = ok c
consoleintr (key ∷ keys) c = do c' ← on_key key c; consoleintr keys c'

-- How the loop of `consoleread` stops.
pub data Stop : Type 0 where
  done : Stop
  blocked : Stop

-- The bytes that go to `dst` when `n` of `target` bytes are still wanted.
unfoldable pub read_from : ℕ → ℕ → Input → Stop × List ℕ × Input
read_from zero target i = (done, [], i)
read_from (suc n) target i =
    let c : ℕ = get_or i.buf (i.r % input_buf) 0 in
    let i' : Input = record i { r = add32 i.r 1 } in
    let (stop, bytes, i'') = read_from n target i' in
    if i.r == i.w
    then (blocked, [], i)
    else if c == control b'D'
    then (done, [], if ltb (suc n) target then i else i')
    else if c == newline
    then (done, c ∷ [], i')
    else (stop, c ∷ bytes, i'')

-- What `consoleread` returns when its loop stops, or sleeps with.
abbrev pub returned : Bool → Stop → ℕ → List ℕ → Input → Stop × ℤ × List ℕ × Input
returned killed done count bytes i = (done, pos count, bytes, i)
returned true blocked count bytes i = (done, minus_one, bytes, i)
returned false blocked count bytes i = (blocked, pos count, bytes, i)

-- `consoleread` from where `n` of `target` bytes are still wanted, with the bytes that it stores.
unfoldable pub consoleread : Bool → ℕ → ℕ → Input → Stop × ℤ × List ℕ × Input
unfolding read_from
consoleread killed n target i =
    let (stop, bytes, i') = read_from n target i in
    returned killed stop (target - n + length bytes) bytes i'
