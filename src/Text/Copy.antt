-- ===== src/Text/Copy.antt =====
-- string.c: what `memset` and `memmove` leave at each address.
use os.Base.{
  ℕ, zero, suc, ◌+◌, ◌-◌, ◌*◌, ◌/◌, ◌%◌, ◌≤◌, ◌<◌, ◌≡◌, ◌⊎◌, inl, inr, Bool, ◌&&◌, ◌==◌, ltb, leb,
  if◌then◌else◌, arith, Bool-cases,
}
use os.Machine.{Mem, store8, store32}
use os.Text.{stosb, stosl, memset, move_down, move_up, memmove}

-- `x` is one of the `n` addresses from `a` on.
abbrev pub within : ℕ → ℕ → ℕ → Bool
within a n x = leb a x && ltb x (a + n)

stosb_lem : (m : Mem) (a c n x : ℕ) → stosb m a c n x ≡ (if within a n x then c % 256 else m x)
unfolding stosb
stosb_lem m a c zero x = ground arith
stosb_lem m a c (suc n) x = ground (arith, stosb_lem (store8 m a (c % 256)) (a + 1) c n x)

abbrev word_of : ℕ → ℕ
word_of c = c % 256 * 16777216 + c % 256 * 65536 + c % 256 * 256 + c % 256

store32_word :
    (m : Mem) (a c x : ℕ) → store32 m a (word_of c) x ≡ (if within a 4 x then c % 256 else m x)
unfolding store32
store32_word m a c x = ground arith

stosl_lem :
    (m : Mem) (a c n x : ℕ)
    → stosl m a (word_of c) n x ≡ (if within a (4 * n) x then c % 256 else m x)
unfolding stosl
stosl_lem m a c zero x = ground arith
stosl_lem m a c (suc n) x =
    ground (arith, stosl_lem (store32 m a (word_of c)) (a + 4) c n x, store32_word m a c x)

-- `memset` sets the `n` bytes from `dst` on to the low byte of `c`, and no other, whether it goes by
-- words or by bytes.
pub memset_lem :
    (m : Mem) (dst c n x : ℕ) → memset m dst c n x ≡ (if within dst n x then c % 256 else m x)
unfolding memset
memset_lem m dst c n x = elim (Bool-cases (dst % 4 == 0 && n % 4 == 0)) [
  | inl words ↦ ground (arith, stosl_lem m dst c (n / 4) x)
  | inr bytes ↦ ground (arith, stosb_lem m dst c n x)
]

move_down_lem :
    (m : Mem) (d s n x : ℕ)
    → s < d
    → move_down m d s n x ≡ (if within d n x then m (s + (x - d)) else m x)
unfolding move_down
move_down_lem m d s zero x h = ground arith
move_down_lem m d s (suc n) x h =
    ground (arith, move_down_lem (store8 m (d + n) (m (s + n))) d s n x)

move_up_lem :
    (m : Mem) (d s n x : ℕ)
    → (d ≤ s) ⊎ (s + n ≤ d)
    → move_up m d s n x ≡ (if within d n x then m (s + (x - d)) else m x)
unfolding move_up
move_up_lem m d s zero x h = ground arith
move_up_lem m d s (suc n) x h = ground (arith, move_up_lem (store8 m d (m s)) (d + 1) (s + 1) n x)

-- `memmove` copies the `n` bytes that stood at `src` to `dst`, also if the two ranges overlap, and
-- changes no other byte.
memmove_lem :
    (m : Mem) (dst src n x : ℕ)
    → memmove m dst src n x ≡ (if within dst n x then m (src + (x - dst)) else m x)
unfolding memmove
memmove_lem m dst src n x = elim (Bool-cases (ltb src dst && ltb dst (src + n))) [
  | inl down ↦ rw down (move_down_lem m dst src n x (ground arith))
  | inr up ↦ rw up (move_up_lem m dst src n x (ground arith))
]
