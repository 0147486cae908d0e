-- ===== src/Lock/Nesting.antt =====
-- spinlock.c: `pushcli` and `popcli` are matched.
use os.Base.{
  ℕ, zero, suc, ◌+◌, ◌-◌, ◌≡◌, refl, ap, ◌∙◌, ◌⊎◌, inl, inr, false, ◌&&◌, ◌==◌, if◌then◌else◌,
  arith,
}
use os.Base.Result.{Result, ok, ◌>>=◌}
use os.Lock.{Cpu, pushcli, popcli}

pub pushclis : ℕ → Cpu → Cpu
unfolding pushcli
pushclis zero c = c
pushclis (suc n) c = pushclis n (pushcli c)

pub popclis : ℕ → Cpu → Result Cpu
unfolding popcli
popclis zero c = ok c
popclis (suc n) c = do c' ← popcli c; popclis n c'

-- Interrupts are off while a `pushcli` is not undone.
abbrev pub IsConsistent : Cpu → Type 0
IsConsistent c = (c.ncli ≡ 0) ⊎ (c.flag ≡ false)

pushclis_lem :
    (n : ℕ) (c : Cpu)
    → IsConsistent c
    → ((pushclis (suc n) c).ncli ≡ c.ncli + suc n)
      × ((pushclis (suc n) c).flag ≡ false)
      × ((pushclis (suc n) c).intena ≡ (if c.ncli == 0 then c.flag else c.intena))
unfolding pushclis pushcli
pushclis_lem zero c ok_c = (omega arith, refl, refl)
pushclis_lem (suc n) c ok_c =
    let (count, off, saved) = pushclis_lem n (pushcli c) (inr refl) in
    (omega arith, off, saved ∙ ground arith)

pub popcli_lem :
    (k : ℕ) (c : Cpu)
    → c.ncli ≡ k + 1
    → c.flag ≡ false
    → popcli c ≡ ok (record c { ncli = k; flag = k == 0 && c.intena })
unfolding popcli
popcli_lem k c count off =
    let some_count : (c.ncli == 0) ≡ false = ground arith in
    let e : c.ncli - 1 ≡ k = omega arith in
    rw (popcli, off, some_count, e) (ap (λ b. ok (record c { ncli = k; flag = b })) (ground arith))

popclis_lem :
    (n k : ℕ) (c : Cpu)
    → c.ncli ≡ k + suc n
    → c.flag ≡ false
    → popclis (suc n) c ≡ ok (record c { ncli = k; flag = k == 0 && c.intena })
unfolding popclis
popclis_lem zero k c count off = rw (popclis, popcli_lem k c count off) refl
popclis_lem (suc n) k c count off =
    let count' : c.ncli ≡ k + suc n + 1 = omega arith in
    let off' : ((k + suc n == 0) && c.intena) ≡ false = ground arith in
    ap (λ r. r >>= popclis (suc n)) (popcli_lem (k + suc n) c count' off)
    ∙ popclis_lem n k (record c { ncli = k + suc n; flag = (k + suc n == 0) && c.intena }) refl off'

-- From a consistent processor, `n` + 1 calls of `pushcli` leave interrupts off, and as many of
-- `popcli` after them bring back the count and the interrupt flag, without a panic.
popclis-pushclis :
    (n : ℕ) (c : Cpu)
    → IsConsistent c
    → ((pushclis (suc n) c).flag ≡ false)
      × ((c' : Cpu) × (popclis (suc n) (pushclis (suc n) c) ≡ ok c')
          × (c'.ncli ≡ c.ncli)
          × (c'.flag ≡ c.flag))
popclis-pushclis n c ok_c =
    let (count, off, saved) = pushclis_lem n c ok_c in
    (
      off,
      (
        record (pushclis (suc n) c) {
          ncli = c.ncli;
          flag = c.ncli == 0 && (pushclis (suc n) c).intena;
        },
        popclis_lem n c.ncli (pushclis (suc n) c) count off,
        refl,
        elim ok_c [ inl none_open ↦ ground arith | inr c_off ↦ ground arith ],
      ),
    )
