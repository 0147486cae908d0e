-- ===== src/Text/Terminated.antt =====
-- string.c: comparing and copying C strings that stay within their bounds.
use os.Base.{
  ℕ, zero, suc, ◌+◌, ◌≤◌, ◌<◌, ◌≡◌, ◌≢◌, refl, ◌⊎◌, inl, inr, ◌↔◌, ◌==◌, arith, Bool-cases,
}
use os.Base.Int.{pos}
use mathlib.Core.Path.{subst}
use os.Machine.{Mem, store8}
use os.Text.{strncmp, copy_terminated, safestrcpy}

-- The strings at `p` and `q` agree on their first `n` bytes, or up to a common NUL.
abbrev pub SamePrefix : Mem → ℕ → ℕ → ℕ → Type 0
SamePrefix m p q zero = Unit {0}
SamePrefix m p q (suc n) = (m p ≡ m q) × ((m p ≡ 0) ⊎ ((m p ≢ 0) × SamePrefix m (p + 1) (q + 1) n))

-- `strncmp` returns 0 exactly if the strings agree on their first `n` bytes or up to a common NUL.
pub strncmp_iff : (m : Mem) (p q n : ℕ) → (strncmp m p q n ≡ pos 0) ↔ SamePrefix m p q n
unfolding strncmp
strncmp_iff m p q zero = (λ e. tt, λ h. refl)
strncmp_iff m p q (suc n) = (
  λ h. ground (arith, (strncmp_iff m (p + 1) (q + 1) n).0),
  λ (same, h). elim h [
    | inl ended ↦ ground arith
    | inr (going, rest) ↦ ground (arith, (strncmp_iff m (p + 1) (q + 1) n).1 rest)
  ],
)

copy_terminated_bounds :
    (m : Mem) (s t n x : ℕ) → (x < s) ⊎ (s + n < x) → copy_terminated m s t n x ≡ m x
unfolding copy_terminated
copy_terminated_bounds m s t zero x h = ground arith
copy_terminated_bounds m s t (suc n) x h =
    ground (arith, copy_terminated_bounds (store8 m s (m t)) (s + 1) (t + 1) n x)

-- `r` holds from `s` on the bytes of the string at `t` in `m`, `k` of them, and then a NUL.
abbrev pub Copied : Mem → Mem → ℕ → ℕ → ℕ → Type 0
Copied m r s t k = (r (s + k) ≡ 0) × ((j : ℕ) → j < k → (r (s + j) ≡ m (t + j)) × (m (t + j) ≢ 0))

copied :
    (m : Mem) (s t n k : ℕ)
    → k ≤ n
    → (t + suc (suc n) ≤ s) ⊎ (s + suc (suc n) ≤ t)
    → m t ≢ 0
    → ((j : ℕ)
        → j < k
        → (copy_terminated (store8 m s (m t)) (s + 1) (t + 1) n (s + 1 + j)
            ≡ store8 m s (m t) (t + 1 + j))
          × (store8 m s (m t) (t + 1 + j) ≢ 0))
    → (j : ℕ) → j < suc k
    → (copy_terminated (store8 m s (m t)) (s + 1) (t + 1) n (s + j) ≡ m (t + j)) × (m (t + j) ≢ 0)
copied m s t n k le apart going same zero lt =
    ground (arith, copy_terminated_bounds (store8 m s (m t)) (s + 1) (t + 1) n s)
copied m s t n k le apart going same (suc j) lt = ground (arith, same j)

extended :
    (m : Mem) (s t n : ℕ)
    → (t + suc (suc n) ≤ s) ⊎ (s + suc (suc n) ≤ t)
    → m t ≢ 0
    → (k : ℕ) × (k ≤ n)
      × Copied
          (store8 m s (m t))
          (copy_terminated (store8 m s (m t)) (s + 1) (t + 1) n)
          (s + 1)
          (t + 1)
          k
    → (k : ℕ) × (k ≤ suc n) × Copied m (copy_terminated (store8 m s (m t)) (s + 1) (t + 1) n) s t k
extended m s t n apart going (k, le, (nul, same)) =
    let e : s + 1 + k ≡ s + suc k = omega arith in
    (
      suc k,
      omega arith,
      (
        subst (λ x. copy_terminated (store8 m s (m t)) (s + 1) (t + 1) n x ≡ 0) e nul,
        copied m s t n k le apart going same,
      ),
    )

copy_terminated_lem :
    (m : Mem) (s t n : ℕ)
    → (t + suc n ≤ s) ⊎ (s + suc n ≤ t)
    → (k : ℕ) × (k ≤ n) × Copied m (copy_terminated m s t n) s t k
unfolding copy_terminated
copy_terminated_lem m s t zero h = (0, omega arith, (ground arith, λ j lt. absurd (omega arith)))
copy_terminated_lem m s t (suc n) apart = elim (Bool-cases (m t == 0)) [
  | inl ends ↦ (0, omega arith, rw ends (ground arith, λ j lt. absurd (omega arith)))
  | inr more ↦
      let extend = extended m s t n apart (ground arith) in
      rw more (extend (copy_terminated_lem (store8 m s (m t)) (s + 1) (t + 1) n (ground arith)))
]

-- `safestrcpy` with `n` at least 1, from a string that the buffer does not overlap: it writes a first
-- part of the string and a NUL behind it, all within the `n` bytes, and no other byte.
safestrcpy_lem :
    (m : Mem) (s t n : ℕ)
    → (t + suc n ≤ s) ⊎ (s + suc n ≤ t)
    → ((k : ℕ) × (k < suc n) × Copied m (safestrcpy m s t (suc n)) s t k)
      × ((x : ℕ) → (x < s) ⊎ (s + suc n ≤ x) → safestrcpy m s t (suc n) x ≡ m x)
unfolding safestrcpy
safestrcpy_lem m s t n apart =
    let (k, le, h) = copy_terminated_lem m s t n apart in
    ((k, omega arith, h), λ x out. copy_terminated_bounds m s t n x (ground arith))
