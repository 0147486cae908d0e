-- ===== src/Syscall/Args.antt =====
-- syscall.c: what the checks of a system call's arguments guarantee.
use os.Base.{
  ℕ, zero, suc, ◌+◌, ◌-◌, ◌^◌, ◌≤◌, ◌<◌, ◌≡◌, ◌≢◌, ◌↔◌, inl, inr, Option, none, some, ◌==◌, leb,
  arith, Bool-cases,
}
use os.Base.Int.{pos}
use os.Machine.{Mem, load32}
use os.Proc.{Proc}
use os.Syscall.{fetchint, scan_string, fetchstr, argint, check_ptr, argptr}

check_ptr_lem :
    (sz size i : ℕ) (o : Option ℕ)
    → sz ≤ 2 ^ 31
    → size < 2 ^ 31
    → (check_ptr sz (pos size) o ≡ some i) ↔ (o ≡ some i) × (i < sz) × (i + size ≤ sz)
unfolding check_ptr
check_ptr_lem sz size i none small small' = (λ e. cc, λ h. let e : none ≡ some i = h.0 in cc)
check_ptr_lem sz size i (some j) small small' = ground arith

-- In a process whose size is at most KERNBASE, and for a size that is an `int`, `argptr` gives
-- exactly the argument words `i` that start in the process and whose `size` bytes all lie in it: the
-- 32-bit sum in the check does not hide an overflow.
pub argptr_lem :
    (n size i : ℕ) (p : Proc) (m : Mem)
    → p.sz ≤ 2 ^ 31
    → size < 2 ^ 31
    → (argptr n (pos size) (p, m) ≡ some i)
      ↔ (argint n (p, m) ≡ some i) × (i < p.sz) × (i + size ≤ p.sz)
unfolding argptr
argptr_lem n size i p m small small' = check_ptr_lem p.sz size i (argint n (p, m)) small small'

-- What `fetchint` gives lies in the process.
fetchint_lem :
    (addr w : ℕ) (p : Proc) (m : Mem)
    → p.sz ≤ 2 ^ 31
    → (fetchint addr (p, m) ≡ some w) ↔ (addr + 4 ≤ p.sz) × (load32 m addr ≡ w)
unfolding fetchint
fetchint_lem addr w p m small = ground arith

scan_string_lem :
    (left : ℕ) (m : Mem) (addr n r : ℕ)
    → (scan_string left m addr n ≡ some r)
      ↔ (n ≤ r) × (r < n + left) × (m (addr + r) ≡ 0) × ((j : ℕ) → n ≤ j → j < r → m (addr + j) ≢ 0)
unfolding scan_string
scan_string_lem zero m addr n r = (λ e. cc, λ (lo, hi, nul, h). grind arith)
scan_string_lem (suc left) m addr n r = elim (Bool-cases (m (addr + n) == 0)) [
  | inl ended ↦ (
    (λ h.
        let e : n ≡ r = ground arith in
        (omega arith, omega arith, ground arith, λ j lo hi. omega arith)),
    (λ (lo, hi, nul, h).
        let here : m (addr + n) ≡ 0 = ground arith in
        let not_before : ¬ (n < r) = λ before. h n (omega arith) before here in
        let e : n ≡ r = omega arith in ground arith),
  )
  | inr going ↦
      let not_here : m (addr + n) ≢ 0 = ground arith in
      let (to, from) = scan_string_lem left m addr (n + 1) r in
      (
        (λ h.
            let e : scan_string left m addr (n + 1) ≡ some r = ground arith in
            let (lo, hi, nul, others) = to e in
            (omega arith, omega arith, nul, λ j from_n before. grind arith)),
        (λ (lo, hi, nul, h).
            let past : n < r = grind arith in
            let e : scan_string left m addr (n + 1) ≡ some r =
              from (omega arith, omega arith, nul, λ j from_n before. h j (omega arith) before) in
            ground arith),
      )
]

-- `fetchstr` gives the length `k` exactly if a string of that length, with its NUL, stands at `addr`
-- inside the process.
fetchstr_lem :
    (addr k : ℕ) (p : Proc) (m : Mem)
    → (fetchstr addr (p, m) ≡ some k)
      ↔ (addr + k < p.sz) × (m (addr + k) ≡ 0) × ((j : ℕ) → j < k → m (addr + j) ≢ 0)
unfolding fetchstr
fetchstr_lem addr k p m = elim (Bool-cases (leb p.sz addr)) [
  | inl out ↦ (λ h. ground arith, λ (lo, nul, h). ground arith)
  | inr inside ↦
      let (to, from) = scan_string_lem (p.sz - addr) m addr 0 k in
      (
        (λ h.
            let e : scan_string (p.sz - addr) m addr 0 ≡ some k = ground arith in
            let (lo, hi, nul, others) = to e in
            (ground arith, nul, λ j before. others j (omega arith) before)),
        (λ (lo, nul, h).
            let e : scan_string (p.sz - addr) m addr 0 ≡ some k =
              from (omega arith, omega arith, nul, λ j from_0 before. h j before) in
            ground arith),
      )
]
