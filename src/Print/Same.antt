-- ===== src/Print/Same.antt =====
-- printf.c and console.c: where `printf` and `cprintf` put out the same.
use os.Base.{
  ℕ, zero, suc, ◌/◌, ◌%◌, ◌<◌, ◌≡◌, refl, sym, ap, inl, inr, Bool, true, false, not, ◌&&◌, ◌||◌,
  List, [], ◌∷◌, some, get_or, ◌==◌, if◌then◌else◌, Bool-cases, arith,
}
use os.Base.Result.{ok, ◌>>=◌}
use os.Machine.{sub32}
use os.Print.{
  upper_digits, lower_digits, percent, prepend, fill, print_word, printint, console_printint,
  is_negative, convert, printf_from, printf, console_convert, cprintf_from, cprintf, next_arg,
}

lower_digit : (d : ℕ) → d < 10 → get_or lower_digits d 0 ≡ get_or upper_digits d 0
lower_digit zero small = refl
lower_digit (suc zero) small = refl
lower_digit (suc (suc zero)) small = refl
lower_digit (suc (suc (suc zero))) small = refl
lower_digit (suc (suc (suc (suc zero)))) small = refl
lower_digit (suc (suc (suc (suc (suc zero))))) small = refl
lower_digit (suc (suc (suc (suc (suc (suc zero)))))) small = refl
lower_digit (suc (suc (suc (suc (suc (suc (suc zero))))))) small = refl
lower_digit (suc (suc (suc (suc (suc (suc (suc (suc zero)))))))) small = refl
lower_digit (suc (suc (suc (suc (suc (suc (suc (suc (suc zero))))))))) small = refl
lower_digit (suc (suc (suc (suc (suc (suc (suc (suc (suc (suc d)))))))))) small =
    absurd (omega arith)

fill_same :
    (room x : ℕ) (after : List ℕ)
    → fill lower_digits 10 room x after ≡ fill upper_digits 10 room x after
unfolding fill
fill_same zero x after = refl
fill_same (suc room) x after =
    let same : get_or lower_digits (x % 10) 0 ≡ get_or upper_digits (x % 10) 0 =
      lower_digit (x % 10) (omega arith) in
    rw (same, fill_same room (x / 10) (get_or upper_digits (x % 10) 0 ∷ after)) refl

printint_same : (a : ℕ) → console_printint a 10 true ≡ printint a 10 true
unfolding printint console_printint print_word
printint_same a = rw (fill_same 16 (if is_negative a then sub32 0 a else a) []) refl

-- The conversion prints no hexadecimal digits and is no %c, which only `printf` knows.
abbrev is_shared : ℕ → Bool
is_shared c = not (c == b'x' || c == b'p' || c == b'c')

-- All conversions of a format are such.
abbrev pub are_shared : List ℕ → Bool
are_shared [] = true
are_shared (c ∷ []) = true
are_shared (c ∷ d ∷ fmt) =
    if c == percent then is_shared d && are_shared fmt else are_shared (d ∷ fmt)

module _ (text : ℕ → List ℕ) where
  convert_same :
      (c : ℕ) (args : List ℕ)
      → is_shared c ≡ true
      → console_convert text c args ≡ convert text c args
  unfolding convert console_convert
  convert_same c args shared = elim (Bool-cases (c == b'd')) [
    | inl decimal ↦
        rw (decimal) (λ i. do (a, rest) ← next_arg args; out ← printint_same a i; ok (out, rest))
    | inr not_d ↦
        let not_hex : (c == b'x' || c == b'p') ≡ false = ground arith in
        let not_char : (c == b'c') ≡ false = ground arith in
        elim (Bool-cases (c == b's')) [
          | inl string ↦ rw (not_d, not_hex, string) refl
          | inr not_s ↦ elim (Bool-cases (c == percent)) [
            | inl literal ↦
                let e : c ≡ percent = ground arith in
                rw (not_d, not_hex, not_s, not_char, literal)
                  (ap (λ (x : ℕ). ok (x ∷ [], args)) (sym e))
            | inr unknown ↦ rw (not_d, not_hex, not_s, not_char, unknown) refl
          ]
        ]
  ]

  from_same :
      (fmt args : List ℕ)
      → are_shared fmt ≡ true
      → cprintf_from text fmt args ≡ printf_from text false fmt args
  unfolding cprintf_from printf_from
  from_same [] args shared = refl
  from_same (c ∷ []) args shared = refl
  from_same (c ∷ d ∷ fmt) args shared = elim (Bool-cases (c == percent)) [
    | inr plain ↦
        let rest : cprintf_from text (d ∷ fmt) args ≡ printf_from text false (d ∷ fmt) args =
          from_same (d ∷ fmt) args (rw (plain) at shared) in
        rw (plain) (λ i. prepend (c ∷ []) (rest i))
    | inl starts ↦
        let both : (is_shared d && are_shared fmt) ≡ true = rw (starts) at shared in
        let one : is_shared d ≡ true = ground (arith, both) in
        let others : are_shared fmt ≡ true = ground (arith, both) in
        rw (starts, convert_same d args one)
          (λ i. do (out, rest) ← convert text d args; prepend out (from_same fmt rest others i))
  ]

  -- On a format without %x, %p and %c, the kernel's `cprintf` puts out what `printf` does, whatever
  -- the arguments, and both go wrong in the same cases.
  pub cprintf-printf :
      (fmt args : List ℕ)
      → are_shared fmt ≡ true
      → cprintf text (some fmt) args ≡ printf text fmt args
  unfolding cprintf printf
  cprintf-printf fmt args shared = from_same fmt args shared
