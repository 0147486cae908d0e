-- ===== src/Text.antt =====
-- string.c: the kernel's functions on bytes and C strings, over memory as a function from addresses
-- to bytes. A pointer is an address and does not wrap; each loop carries the value that its counter
-- has in the code.
pub mod Copy
pub mod Terminated
mod Tests
use os.Base.{
  ℕ, zero, suc, ◌+◌, ◌-◌, ◌*◌, ◌/◌, ◌%◌, Bool, true, false, ◌&&◌, Option, none, some, ◌==◌, ltb,
  if◌then◌else◌,
}
use os.Base.Int.{ℤ, pos, sub_ℕ}
use os.Machine.{Mem, store8, store32}

-- x86.h's `stosb` and `stosl`
pub stosb : Mem → ℕ → ℕ → ℕ → Mem
stosb m a c zero = m
stosb m a c (suc n) = stosb (store8 m a (c % 256)) (a + 1) c n

pub stosl : Mem → ℕ → ℕ → ℕ → Mem
stosl m a w zero = m
stosl m a w (suc n) = stosl (store32 m a w) (a + 4) w n

-- `c` is a byte of the `int` argument's value modulo 2 ^ 32.
unfoldable pub memset : Mem → ℕ → ℕ → ℕ → Mem
unfolding stosb stosl
memset m dst c n =
    if dst % 4 == 0 && n % 4 == 0
    then stosl m dst (c % 256 * 16777216 + c % 256 * 65536 + c % 256 * 256 + c % 256) (n / 4)
    else stosb m dst c n

-- The difference of the first bytes that differ, or 0.
unfoldable pub memcmp : Mem → ℕ → ℕ → ℕ → ℤ
memcmp m v1 v2 zero = pos 0
memcmp m v1 v2 (suc n) =
    let rest : ℤ = memcmp m (v1 + 1) (v2 + 1) n in
    if m v1 == m v2 then rest else sub_ℕ (m v1) (m v2)

-- The two loops of `memmove`, from the last byte down and from the first up.
pub move_down : Mem → ℕ → ℕ → ℕ → Mem
move_down m d s zero = m
move_down m d s (suc n) = move_down (store8 m (d + n) (m (s + n))) d s n

pub move_up : Mem → ℕ → ℕ → ℕ → Mem
move_up m d s zero = m
move_up m d s (suc n) = move_up (store8 m d (m s)) (d + 1) (s + 1) n

unfoldable pub memmove : Mem → ℕ → ℕ → ℕ → Mem
unfolding move_down move_up
memmove m dst src n =
    if ltb src dst && ltb dst (src + n) then move_down m dst src n else move_up m dst src n

unfoldable pub strncmp : Mem → ℕ → ℕ → ℕ → ℤ
strncmp m p q zero = pos 0
strncmp m p q (suc n) =
    let rest : ℤ = strncmp m (p + 1) (q + 1) n in
    if m p == 0 then sub_ℕ (m p) (m q) else if m p == m q then rest else sub_ℕ (m p) (m q)

-- The second loop of `strncpy`.
pub pad : Mem → ℕ → ℕ → Mem
pad m s zero = m
pad m s (suc n) = pad (store8 m s 0) (s + 1) n

unfoldable pub strncpy : Mem → ℕ → ℕ → ℕ → Mem
unfolding pad
strncpy m s t zero = m
strncpy m s t (suc n) =
    let rest : Mem = strncpy (store8 m s (m t)) (s + 1) (t + 1) n in
    let padded : Mem = pad (store8 m s (m t)) (s + 1) n in if m t == 0 then padded else rest

-- `safestrcpy` after its guard, with `n - 1` left.
pub copy_terminated : Mem → ℕ → ℕ → ℕ → Mem
copy_terminated m s t zero = store8 m s 0
copy_terminated m s t (suc n) =
    let rest : Mem = copy_terminated (store8 m s (m t)) (s + 1) (t + 1) n in
    let stopped : Mem = store8 (store8 m s (m t)) (s + 1) 0 in if m t == 0 then stopped else rest

-- Nothing is copied unless `n` is positive.
unfoldable pub safestrcpy : Mem → ℕ → ℕ → ℕ → Mem
unfolding copy_terminated
safestrcpy m s t zero = m
safestrcpy m s t (suc n) = copy_terminated m s t n

-- The loop of `strlen` has fuel; without a NUL in reach there is no result.
unfoldable pub strlen : ℕ → Mem → ℕ → ℕ → Option ℕ
strlen zero m s n = none
strlen (suc fuel) m s n =
    let rest : Option ℕ = strlen fuel m s (n + 1) in if m (s + n) == 0 then some n else rest
