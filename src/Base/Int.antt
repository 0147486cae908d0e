-- ===== src/Base/Int.antt =====
-- C's `int` where it may be negative: `negsuc n` is -(n + 1).
use Prim.Native.Nat.{ℕ, ◌-◌, compare, Ordering}
use mathlib.Core.Bool.{Bool, true, false}

pub data ℤ : Type 0 where
  pos : ℕ → ℤ
  negsuc : ℕ → ℤ

-- The error result of the system calls.
abbrev pub minus_one : ℤ
minus_one = negsuc 0

-- `n == i` for an `int` field `n` that is never negative
abbrev pub eq_int : ℕ → ℤ → Bool
eq_int n (pos i) = elim (compare n i) [ Ordering.eq ↦ true | _ ↦ false ]
eq_int n (negsuc i) = false

-- `a - b` of two numbers
abbrev pub sub_ℕ : ℕ → ℕ → ℤ
sub_ℕ a b = elim (compare a b) [ Ordering.lt ↦ negsuc (b - a - 1) | _ ↦ pos (a - b) ]
