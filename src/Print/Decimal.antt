-- ===== src/Print/Decimal.antt =====
-- printf.c and ulib.c: `atoi` reads what `printint` prints.
use os.Base.{
  ℕ, zero, suc, ◌+◌, ◌-◌, ◌*◌, ◌/◌, ◌%◌, ◌^◌, ◌≤◌, ◌<◌, ◌≡◌, refl, ap, ◌∙◌, inl, inr, true, List,
  [], ◌∷◌, get_or, ◌==◌, leb, if◌then◌else◌, Bool-cases, arith,
}
use os.Base.Result.{ok}
use os.Machine.{sub32, add32}
use os.Print.{upper_digits, fill, print_word, printint, atoi_from, atoi}

pub digit : (d : ℕ) → d < 10 → get_or upper_digits d 0 ≡ b'0' + d
digit zero small = refl
digit (suc zero) small = refl
digit (suc (suc zero)) small = refl
digit (suc (suc (suc zero))) small = refl
digit (suc (suc (suc (suc zero)))) small = refl
digit (suc (suc (suc (suc (suc zero))))) small = refl
digit (suc (suc (suc (suc (suc (suc zero)))))) small = refl
digit (suc (suc (suc (suc (suc (suc (suc zero))))))) small = refl
digit (suc (suc (suc (suc (suc (suc (suc (suc zero)))))))) small = refl
digit (suc (suc (suc (suc (suc (suc (suc (suc (suc zero))))))))) small = refl
digit (suc (suc (suc (suc (suc (suc (suc (suc (suc (suc d)))))))))) small = absurd (omega arith)

-- `atoi` reads a digit.
atoi-digit :
    (n d : ℕ) (s : List ℕ)
    → d < 10
    → n * 10 + d < 2 ^ 32
    → atoi_from n ((b'0' + d) ∷ s) ≡ atoi_from (n * 10 + d) s
unfolding atoi_from
atoi-digit n d s small fits =
    let low : leb b'0' (b'0' + d) ≡ true = ground arith in
    let high : leb (b'0' + d) b'9' ≡ true = ground arith in
    let value : sub32 (add32 (n * 10 % 2 ^ 32) (b'0' + d)) b'0' ≡ n * 10 + d = omega arith in
    rw (low, high, value) refl

-- 10 ^ (k + 1)
abbrev tens : ℕ → ℕ
tens zero = 10
tens (suc k) = 10 * tens k

last_digit_lem :
    (x : ℕ) (after : List ℕ)
    → x < 10
    → atoi_from 0 (get_or upper_digits (x % 10) 0 ∷ after) ≡ atoi_from x after
last_digit_lem x after below =
    let one : x % 10 ≡ x = omega arith in
    let same : 0 * 10 + x ≡ x = omega arith in
    ap (λ (d : ℕ). atoi_from 0 (get_or upper_digits d 0 ∷ after)) one
    ∙ ap (λ (c : ℕ). atoi_from 0 (c ∷ after)) (digit x below)
    ∙ atoi-digit 0 x after below (omega arith)
    ∙ ap (λ (n : ℕ). atoi_from n after) same

more_digits :
    (x : ℕ) (after : List ℕ)
    → x < 2 ^ 32
    → atoi_from (x / 10) (get_or upper_digits (x % 10) 0 ∷ after) ≡ atoi_from x after
more_digits x after word =
    let value : x / 10 * 10 + x % 10 ≡ x = omega arith in
    ap (λ (c : ℕ). atoi_from (x / 10) (c ∷ after)) (digit (x % 10) (omega arith))
    ∙ atoi-digit (x / 10) (x % 10) after (omega arith) (omega arith)
    ∙ ap (λ (n : ℕ). atoi_from n after) value

-- With room for k + 1 digits, a number of as many digits is printed, and from its digits `atoi` reads
-- it back and goes on behind them.
fill_lem :
    (k room x : ℕ) (after : List ℕ)
    → x < tens k
    → k ≤ room
    → x < 2 ^ 32
    → (left : ℕ) × (buf : List ℕ) × (fill upper_digits 10 (suc room) x after ≡ ok (left, buf))
      × (room ≤ left + k)
      × (atoi_from 0 buf ≡ atoi_from x after)
unfolding fill
fill_lem (suc k) zero x after small enough word = absurd (omega arith)
fill_lem zero room x after small enough word =
    let last_digit : (x / 10 == 0) ≡ true = ground arith in
    rw (last_digit) (
      room,
      get_or upper_digits (x % 10) 0 ∷ after,
      refl,
      omega arith,
      last_digit_lem x after (omega arith),
    )
fill_lem (suc k) (suc room) x after small enough word = elim (Bool-cases (x / 10 == 0)) [
  | inl last_digit ↦ rw (last_digit) (
    suc room,
    get_or upper_digits (x % 10) 0 ∷ after,
    refl,
    omega arith,
    last_digit_lem x after (ground arith),
  )
  | inr more ↦
      let (left, buf, filled, used, read) =
        fill_lem k room (x / 10) (get_or upper_digits (x % 10) 0 ∷ after) (omega arith)
          (omega arith) (omega arith) in
      (left, buf, rw (more) filled, omega arith, read ∙ more_digits x after word)
]

atoi_nil : (x : ℕ) → atoi_from x [] ≡ x
unfolding atoi_from
atoi_nil x = refl

print_decimal :
    (x : ℕ)
    → x < 2 ^ 32
    → (left : ℕ) × (buf : List ℕ) × (fill upper_digits 10 16 x [] ≡ ok (suc left, buf))
      × (atoi buf ≡ x)
unfolding atoi
print_decimal x word =
    let (left, buf, filled, used, read) = fill_lem 9 15 x [] (omega arith) (omega arith) word in
    let some_left : left ≡ suc (left - 1) = omega arith in
    (left - 1, buf, filled ∙ ap (λ (r : ℕ). ok (r, buf)) some_left, read ∙ atoi_nil x)

-- `printint` in base 10 never overruns its buffer. Of what it prints for an `int` that is not negative
-- `atoi` reads the number back. For a negative one it prints a minus sign and the digits of the
-- absolute value, which `atoi` reads back from the digits, while from the whole text, since it
-- takes no sign, it reads 0.
pub atoi-printint :
    (x : ℕ)
    → x < 2 ^ 32
    → (text : List ℕ) × (s : List ℕ) × (printint x 10 true ≡ ok text)
      × (text ≡ (if leb (2 ^ 31) x then b'-' ∷ s else s))
      × (atoi s ≡ (if leb (2 ^ 31) x then 2 ^ 32 - x else x))
      × (atoi text ≡ (if leb (2 ^ 31) x then 0 else x))
unfolding printint print_word
atoi-printint x word = elim (Bool-cases (leb (2 ^ 31) x)) [
  | inl negative ↦
      let (left, buf, filled, read) = print_decimal (sub32 0 x) (omega arith) in
      let minus : sub32 0 x ≡ 2 ^ 32 - x = ground arith in
      rw (negative)
        (b'-' ∷ buf, buf, rw (filled) refl, refl, read ∙ minus, unfold atoi atoi_from in refl)
  | inr positive ↦
      let (left, buf, filled, read) = print_decimal x word in
      rw (positive) (buf, buf, rw (filled) refl, refl, read, read)
]
