-- ===== src/Print.antt =====
-- printf.c's `printf` and console.c's `cprintf`, with ulib.c's `atoi`. A format is its bytes before
-- the NUL, `args` the words behind it on the stack, `text` the string at each address, and the result
-- what is put out. An `int` is its 32-bit pattern. The lock of the console is left out.
pub mod Decimal
pub mod Same
mod Tests
use os.Base.{
  ℕ, zero, suc, ◌+◌, ◌-◌, ◌*◌, ◌/◌, ◌%◌, ◌^◌, Bool, true, false, ◌&&◌, ◌||◌, List, [], ◌∷◌, ◌++◌,
  Option, none, some, ◌==◌, ltb, leb, if◌then◌else◌, get_or,
}
use os.Base.Result.{Result, ok, panic, fault, ◌>>=◌}
use os.Machine.{add32, sub32}

abbrev pub percent : ℕ
percent = b'%'

-- `x < 0` for an `int`
abbrev pub is_negative : ℕ → Bool
is_negative x = leb (2 ^ 31) x

abbrev upper_digits : List ℕ
upper_digits =
    b'0' ∷ b'1' ∷ b'2' ∷ b'3' ∷ b'4' ∷ b'5' ∷ b'6' ∷ b'7' ∷ b'8' ∷ b'9' ∷ b'A' ∷ b'B' ∷ b'C' ∷ b'D'
    ∷ b'E' ∷ b'F' ∷ []

abbrev lower_digits : List ℕ
lower_digits =
    b'0' ∷ b'1' ∷ b'2' ∷ b'3' ∷ b'4' ∷ b'5' ∷ b'6' ∷ b'7' ∷ b'8' ∷ b'9' ∷ b'a' ∷ b'b' ∷ b'c' ∷ b'd'
    ∷ b'e' ∷ b'f' ∷ []

abbrev pub prepend : List ℕ → Result (List ℕ) → Result (List ℕ)
prepend front m = do rest ← m; ok (front ++ rest)

-- The loop that fills `buf` from its end in the order of printing, before `after`; `room` entries of
-- the buffer are left.
unfoldable pub fill : List ℕ → ℕ → ℕ → ℕ → List ℕ → Result (ℕ × List ℕ)
fill digits base zero x after = fault
fill digits base (suc room) x after =
    let buf : List ℕ = get_or digits (x % base) 0 ∷ after in
    let more = fill digits base room (x / base) buf in
    if x / base == 0 then ok (room, buf) else more

-- `buf[i++] = '-'`
abbrev pub put_sign : Bool → ℕ × List ℕ → Result (List ℕ)
put_sign false (room, buf) = ok buf
put_sign true (zero, buf) = fault
put_sign true (suc room, buf) = ok (b'-' ∷ buf)

-- Both functions of this name, which differ in their digits; `buf` has 16 entries.
unfoldable pub print_word : List ℕ → ℕ → ℕ → Bool → Result (List ℕ)
unfolding fill
print_word digits xx base sgn =
    let neg : Bool = sgn && is_negative xx in
    let x : ℕ = if neg then sub32 0 xx else xx in fill digits base 16 x [] >>= put_sign neg

-- printf.c: `printint`.
unfoldable pub printint : ℕ → ℕ → Bool → Result (List ℕ)
unfolding print_word
printint xx base sgn = print_word upper_digits xx base sgn

-- console.c: `printint`.
unfoldable pub console_printint : ℕ → ℕ → Bool → Result (List ℕ)
unfolding print_word
console_printint xx base sgn = print_word lower_digits xx base sgn

-- "(null)"
abbrev pub null_text : List ℕ
null_text = b'(' ∷ b'n' ∷ b'u' ∷ b'l' ∷ b'l' ∷ b')' ∷ []

-- The next argument; reading past the last is undefined.
abbrev pub next_arg : List ℕ → Result (ℕ × List ℕ)
next_arg [] = fault
next_arg (a ∷ args) = ok (a, args)

module _ (text : ℕ → List ℕ) where
  abbrev pub string_arg : ℕ → List ℕ
  string_arg a = if a == 0 then null_text else text a

  -- The conversions of `printf`: what is put out and the arguments left.
  unfoldable pub convert : ℕ → List ℕ → Result (List ℕ × List ℕ)
  unfolding printint
  convert c args =
      if c == b'd'
      then (do (a, rest) ← next_arg args; out ← printint a 10 true; ok (out, rest))
      else if c == b'x' || c == b'p'
      then (do (a, rest) ← next_arg args; out ← printint a 16 false; ok (out, rest))
      else if c == b's'
      then (do (a, rest) ← next_arg args; ok (string_arg a, rest))
      else if c == b'c'
      then (do (a, rest) ← next_arg args; ok ((a % 256) ∷ [], rest))
      else if c == percent
      then ok (c ∷ [], args)
      else ok (percent ∷ c ∷ [], args)

  -- The loop of `printf`; the flag is `state == '%'`.
  unfoldable pub printf_from : Bool → List ℕ → List ℕ → Result (List ℕ)
  unfolding convert
  printf_from state [] args = ok []
  printf_from false (c ∷ fmt) args =
      let convert_next = printf_from true fmt args in
      let next = printf_from false fmt args in
      if c == percent then convert_next else prepend (c ∷ []) next
  printf_from true (c ∷ fmt) args = do
    (out, rest) ← convert c args
    prepend out (printf_from false fmt rest)

  unfoldable pub printf : List ℕ → List ℕ → Result (List ℕ)
  unfolding printf_from
  printf fmt args = printf_from false fmt args

  -- The conversions of `cprintf`.
  unfoldable pub console_convert : ℕ → List ℕ → Result (List ℕ × List ℕ)
  unfolding console_printint
  console_convert c args =
      if c == b'd'
      then (do (a, rest) ← next_arg args; out ← console_printint a 10 true; ok (out, rest))
      else if c == b'x' || c == b'p'
      then (do (a, rest) ← next_arg args; out ← console_printint a 16 false; ok (out, rest))
      else if c == b's'
      then (do (a, rest) ← next_arg args; ok (string_arg a, rest))
      else if c == percent
      then ok (percent ∷ [], args)
      else ok (percent ∷ c ∷ [], args)

  -- The loop of `cprintf`.
  unfoldable pub cprintf_from : List ℕ → List ℕ → Result (List ℕ)
  unfolding console_convert
  cprintf_from [] args = ok []
  cprintf_from (c ∷ []) args = if c == percent then ok [] else ok (c ∷ [])
  cprintf_from (c ∷ d ∷ fmt) args =
      let plain = prepend (c ∷ []) (cprintf_from (d ∷ fmt) args) in
      if c == percent
      then (do (out, rest) ← console_convert d args; prepend out (cprintf_from fmt rest))
      else plain

  unfoldable pub cprintf : Option (List ℕ) → List ℕ → Result (List ℕ)
  unfolding cprintf_from
  cprintf none args = panic "null fmt"
  cprintf (some fmt) args = cprintf_from fmt args

-- ulib.c: the loop of `atoi`, with the `int` that it has read so far.
unfoldable pub atoi_from : ℕ → List ℕ → ℕ
atoi_from n [] = n
atoi_from n (c ∷ s) =
    let next = atoi_from (sub32 (add32 (n * 10 % 2 ^ 32) c) b'0') s in
    if leb b'0' c && leb c b'9' then next else n

unfoldable pub atoi : List ℕ → ℕ
unfolding atoi_from
atoi s = atoi_from 0 s
