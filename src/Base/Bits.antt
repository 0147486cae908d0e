-- ===== src/Base/Bits.antt =====
-- Bits of a word: what `&`, `|` and `^` with `1 << i` do to each bit, at every width.
use Prim.Native.Nat.{
  ℕ, zero, suc, ◌+◌, ◌-◌, ◌*◌, ◌/◌, ◌%◌, ◌^◌, ◌≤◌, ◌<◌, min, max, digits, differ, bit_and, bit_or,
  bit_xor, bit_and-bitwise, bit_or-bitwise, bit_xor-bitwise,
}
use mathlib.Core.Path.{◌≡◌, refl, ap, ◌∙◌}
use mathlib.Core.Logic.{◌≢◌, ◌⊎◌, inl, inr}
use native.Mathlib.Nat.{le_refl, pow-suc, one-le-pow}
use native.Mathlib.Omega.{arith}
use os.Base.Tests.{◌==◌, Bool-cases}

-- Fuel past the first number changes nothing.
one_more :
    (z : ℕ → ℕ) (f : ℕ → ℕ → ℕ) (n a b : ℕ) → a ≤ n → digits z f (suc n) a b ≡ digits z f n a b
one_more z f zero zero b h = refl
one_more z f (suc n) zero b h = refl
one_more z f zero (suc a) b h = absurd (omega arith)
one_more z f (suc n) (suc a) b h = rw (one_more z f n (suc a / 2) (b / 2) (omega arith)) refl

any_more : (z : ℕ → ℕ) (f : ℕ → ℕ → ℕ) (d a b : ℕ) → digits z f (d + a) a b ≡ digits z f a a b
any_more z f zero a b = let e : 0 + a ≡ a = omega arith in ap (λ n. digits z f n a b) e
any_more z f (suc d) a b =
    let e : suc d + a ≡ suc (d + a) = omega arith in
    ap (λ n. digits z f n a b) e ∙ one_more z f (d + a) a b (omega arith) ∙ any_more z f d a b

half_fuel :
    (z : ℕ → ℕ) (f : ℕ → ℕ → ℕ) (a b : ℕ)
    → digits z f a (suc a / 2) b ≡ digits z f (suc a / 2) (suc a / 2) b
half_fuel z f a b =
    let split : a ≡ (a - suc a / 2) + suc a / 2 = omega arith in
    ap (λ n. digits z f n (suc a / 2) b) split ∙ any_more z f (a - suc a / 2) (suc a / 2) b

-- The lowest digit of `a & b`, of `a | b` and of `a ^ b`.
and_step : (a b : ℕ) → bit_and a b ≡ bit_and (a / 2) (b / 2) * 2 + min (a % 2) (b % 2)
and_step zero b = rw (bit_and-bitwise 0 b, bit_and-bitwise 0 (b / 2)) (omega arith)
and_step (suc a) b =
    rw (bit_and-bitwise (suc a) b, bit_and-bitwise (suc a / 2) (b / 2))
      (omega (arith, half_fuel (λ y. 0) min a (b / 2)))

or_step : (a b : ℕ) → bit_or a b ≡ bit_or (a / 2) (b / 2) * 2 + max (a % 2) (b % 2)
or_step zero b = rw (bit_or-bitwise 0 b, bit_or-bitwise 0 (b / 2)) (omega arith)
or_step (suc a) b =
    rw (bit_or-bitwise (suc a) b, bit_or-bitwise (suc a / 2) (b / 2))
      (omega (arith, half_fuel (λ y. y) max a (b / 2)))

xor_step : (a b : ℕ) → bit_xor a b ≡ bit_xor (a / 2) (b / 2) * 2 + differ (a % 2) (b % 2)
xor_step zero b = rw (bit_xor-bitwise 0 b, bit_xor-bitwise 0 (b / 2)) (omega arith)
xor_step (suc a) b =
    rw (bit_xor-bitwise (suc a) b, bit_xor-bitwise (suc a / 2) (b / 2))
      (omega (arith, half_fuel (λ y. y) differ a (b / 2)))

differ-le : (x y : ℕ) → x ≤ 1 → y ≤ 1 → differ x y ≤ 1
differ-le zero y h k = k
differ-le (suc x) zero h k = h
differ-le (suc x) (suc y) h k = differ-le x y (omega arith) (omega arith)

differ-zero : (x : ℕ) → differ x 0 ≡ x
differ-zero zero = refl
differ-zero (suc x) = refl

-- The bit of weight `2 ^ i`.
abbrev pub bit : ℕ → ℕ → ℕ
bit a zero = a % 2
bit a (suc i) = bit (a / 2) i

pub bit-le : (i a : ℕ) → bit a i ≤ 1
bit-le zero a = omega arith
bit-le (suc i) a = bit-le i (a / 2)

pub bit-bit_and : (i a b : ℕ) → bit (bit_and a b) i ≡ min (bit a i) (bit b i)
bit-bit_and zero a b = omega (arith, and_step a b)
bit-bit_and (suc i) a b =
    let half : bit_and a b / 2 ≡ bit_and (a / 2) (b / 2) = omega (arith, and_step a b) in
    rw half (bit-bit_and i (a / 2) (b / 2))

pub bit-bit_or : (i a b : ℕ) → bit (bit_or a b) i ≡ max (bit a i) (bit b i)
bit-bit_or zero a b = omega (arith, or_step a b)
bit-bit_or (suc i) a b = rw (half) (bit-bit_or i (a / 2) (b / 2))
  where
    half : bit_or a b / 2 ≡ bit_or (a / 2) (b / 2)
    half = omega (arith, or_step a b)

zero-bit_and : (b : ℕ) → bit_and 0 b ≡ 0
zero-bit_and b = bit_and-bitwise 0 b

bit_and-zero_fuel : (n a : ℕ) → a ≤ n → bit_and a 0 ≡ 0
bit_and-zero_fuel n zero h = zero-bit_and 0
bit_and-zero_fuel zero (suc a) h = absurd (omega arith)
bit_and-zero_fuel (suc n) (suc a) h =
    omega (arith, and_step (suc a) 0, bit_and-zero_fuel n (suc a / 2) (omega arith))

-- `a & (1 << i)` picks one bit.
pub bit_and-pow : (i a : ℕ) → bit_and a (2 ^ i) ≡ bit a i * 2 ^ i
bit_and-pow zero a = omega (arith, and_step a 1, bit_and-zero_fuel (a / 2) (a / 2) (le_refl _))
bit_and-pow (suc i) a = omega (
  arith,
  and_step a (2 ^ suc i),
  pow-suc 2 i,
  bit_and-pow i (a / 2),
  ap (bit_and (a / 2)) (half i),
  ap (λ (t : ℕ). bit (a / 2) i * t) (pow-suc 2 i),
)
  where
    half : (i : ℕ) → 2 ^ suc i / 2 ≡ 2 ^ i
    half i = omega (arith, pow-suc 2 i)

pub bit-pow_self : (k : ℕ) → bit (2 ^ k) k ≡ 1
bit-pow_self zero = omega arith
bit-pow_self (suc k) = rw half (bit-pow_self k)
  where
    half : 2 ^ suc k / 2 ≡ 2 ^ k
    half = omega (arith, pow-suc 2 k)

pub bit-zero : (i : ℕ) → bit 0 i ≡ 0
bit-zero zero = refl
bit-zero (suc i) = bit-zero i

pub bit-pow_ne : (k j : ℕ) → k ≢ j → bit (2 ^ k) j ≡ 0
bit-pow_ne zero zero h = absurd (h refl)
bit-pow_ne zero (suc j) h = bit-zero j
bit-pow_ne (suc k) zero h = omega (arith, pow-suc 2 k)
bit-pow_ne (suc k) (suc j) h = rw half (bit-pow_ne k j (λ e. h (ap suc e)))
  where
    half : 2 ^ suc k / 2 ≡ 2 ^ k
    half = omega (arith, pow-suc 2 k)

pub bit-bit_xor : (i a b : ℕ) → bit (bit_xor a b) i ≡ differ (bit a i) (bit b i)
bit-bit_xor zero a b = omega (arith, xor_step a b, differ-le (a % 2) (b % 2))
bit-bit_xor (suc i) a b = rw half (bit-bit_xor i (a / 2) (b / 2))
  where
    half : bit_xor a b / 2 ≡ bit_xor (a / 2) (b / 2)
    half = omega (arith, xor_step a b, differ-le (a % 2) (b % 2))

-- `a ^ (1 << k)` clears a bit that is set, and leaves the others.
pub bit-clear_self : (k a : ℕ) → bit a k ≡ 1 → bit (bit_xor a (2 ^ k)) k ≡ 0
bit-clear_self k a h = rw (bit-bit_xor k a (2 ^ k), h, bit-pow_self k) refl

pub bit-clear_ne : (k j a : ℕ) → k ≢ j → bit (bit_xor a (2 ^ k)) j ≡ bit a j
bit-clear_ne k j a h = rw (bit-bit_xor j a (2 ^ k), bit-pow_ne k j h) (differ-zero (bit a j))

-- `a | (1 << k)` sets a bit, and leaves the others.
pub bit-set_self : (k a : ℕ) → bit (bit_or a (2 ^ k)) k ≡ 1
bit-set_self k a = omega (arith, bit-bit_or k a (2 ^ k), bit-pow_self k, bit-le k a)

pub bit-set_ne : (k j a : ℕ) → k ≢ j → bit (bit_or a (2 ^ k)) j ≡ bit a j
bit-set_ne k j a h = omega (arith, bit-bit_or j a (2 ^ k), bit-pow_ne k j h)

-- A word all of whose bits are 0 is 0.
pub bits-zero : (w a : ℕ) → a < 2 ^ w → ((i : ℕ) → i < w → bit a i ≡ 0) → a ≡ 0
bits-zero zero a h z = omega arith
bits-zero (suc w) a h z = omega (
  arith,
  bits-zero w (a / 2) (omega (arith, pow-suc 2 w)) (λ i lt. z (suc i) (omega arith)),
  z 0 (omega arith),
)

xor_zero : (a b : ℕ) → a < 1 → b < 1 → bit_xor a b ≡ 0
xor_zero zero zero h k = refl
xor_zero zero (suc b) h k = absurd (omega arith)
xor_zero (suc a) b h k = absurd (omega arith)

pub bit_xor-lt : (w a b : ℕ) → a < 2 ^ w → b < 2 ^ w → bit_xor a b < 2 ^ w
bit_xor-lt zero a b h k = omega (arith, xor_zero a b)
bit_xor-lt (suc w) a b h k = omega (
  arith,
  xor_step a b,
  differ-le (a % 2) (b % 2),
  pow-suc 2 w,
  bit_xor-lt w (a / 2) (b / 2) (omega (arith, pow-suc 2 w)) (omega (arith, pow-suc 2 w)),
)

pub pow-lt : (k w : ℕ) → k < w → 2 ^ k < 2 ^ w
pow-lt k zero h = elim h [ ]
pow-lt zero (suc w) h = omega (arith, pow-suc 2 w, one-le-pow w 2)
pow-lt (suc k) (suc w) h = omega (arith, pow-suc 2 w, pow-suc 2 k, pow-lt k w (omega arith))

-- Nonzero exactly if the bit is set.
pub bit_and-pow-eq_zero : (i a : ℕ) → (bit_and a (2 ^ i) == 0) ≡ (bit a i == 0)
bit_and-pow-eq_zero i a = rw (bit_and-pow i a) (by_value (bit a i) (bit-le i a))
  where
    by_value : (b : ℕ) → b ≤ 1 → (b * 2 ^ i == 0) ≡ (b == 0)
    by_value zero h = ground arith
    by_value (suc zero) h = ground (arith, one-le-pow i 2)
    by_value (suc (suc b)) h = absurd (omega arith)

pub bit_and-pow_set : (i a : ℕ) → bit a i ≡ 1 → bit_and a (2 ^ i) ≡ 2 ^ i
bit_and-pow_set i a h = rw (bit_and-pow i a, h) (omega arith)

pub bit-clear-le : (k j a : ℕ) → bit a k ≡ 1 → bit (bit_xor a (2 ^ k)) j ≤ bit a j
bit-clear-le k j a h = elim (Bool-cases (k == j)) [
  | inl same ↦ let e : k ≡ j = ground arith in rw (← e) (omega (arith, bit-clear_self k a h))
  | inr other ↦ omega (arith, bit-clear_ne k j a (ground arith))
]

pub bit-cases : (a i : ℕ) → (bit a i ≡ 0) ⊎ (bit a i ≡ 1)
bit-cases a i = omega (arith, bit-le i a)
