-- ===== src/Lock/Exclusion.antt =====
-- spinlock.c: mutual exclusion.
use os.Base.{ℕ, ◌≡◌, ◌≢◌, refl, sym, ap, ◌∙◌, true, Option, none, some, List, [], ◌∷◌, arith}
use os.Base.Result.{ok}
use os.Lock.{pushcli, popcli, Cpu, Spinlock, initlock, holding, acquire, release, taken, spins}

-- What the processors do to a lock, in the order in which it happens.
pub data Event : Type 0 where
  took gave : ℕ → Event

pub data Run : Spinlock → List Event → Type 0 where
  stop : {lk : Spinlock} → Run lk []
  spin :
      {lk : Spinlock} {es : List Event} (i : ℕ) (c c' : Cpu)
      → acquire i lk c ≡ ok (spins, c')
      → Run lk es
      → Run lk es
  take :
      {lk lk' : Spinlock} {es : List Event} (i : ℕ) (c c' : Cpu)
      → acquire i lk c ≡ ok (taken lk', c')
      → Run lk' es
      → Run lk (took i ∷ es)
  give :
      {lk lk' : Spinlock} {es : List Event} (i : ℕ) (c c' : Cpu)
      → release i lk c ≡ ok (lk', c')
      → Run lk' es
      → Run lk (gave i ∷ es)

-- With the holder given: no one takes the lock while it is held, and only its holder gives it back.
abbrev pub IsExclusive : Option ℕ → List Event → Type 0
IsExclusive holder [] = Unit {0}
IsExclusive none (took i ∷ es) = IsExclusive (some i) es
IsExclusive none (gave i ∷ es) = ⊥
IsExclusive (some h) (took i ∷ es) = ⊥
IsExclusive (some h) (gave i ∷ es) = (i ≡ h) × IsExclusive none es

abbrev held_by : Option ℕ → Spinlock
held_by none = initlock
held_by (some h) = record { locked = true; cpu = some h }

acquire-held :
    (i h : ℕ) (c c' : Cpu) (lk' : Spinlock) → acquire i (held_by (some h)) c ≢ ok (taken lk', c')
unfolding acquire holding popcli pushcli
acquire-held i h c c' lk' = λ e. ground arith

acquire-free :
    (i : ℕ) (c c' : Cpu) (lk' : Spinlock)
    → acquire i initlock c ≡ ok (taken lk', c')
    → lk' ≡ held_by (some i)
unfolding acquire holding popcli pushcli
acquire-free i c c' lk' e = ground arith

release-free : (i : ℕ) (c c' : Cpu) (lk' : Spinlock) → release i initlock c ≢ ok (lk', c')
unfolding release holding popcli pushcli
release-free i c c' lk' = λ e. ground arith

release-held :
    (i h : ℕ) (c c' : Cpu) (lk' : Spinlock)
    → release i (held_by (some h)) c ≡ ok (lk', c')
    → (i ≡ h) × (lk' ≡ initlock)
unfolding release holding popcli pushcli
release-held i h c c' lk' e = ground arith

Run-IsExclusive_from :
    (holder : Option ℕ) {lk : Spinlock} {es : List Event}
    → lk ≡ held_by holder
    → Run lk es
    → IsExclusive holder es
Run-IsExclusive_from none at stop = tt
Run-IsExclusive_from (some h) at stop = tt
Run-IsExclusive_from holder at (spin i c c' e r) = Run-IsExclusive_from holder at r
Run-IsExclusive_from none at (take {lk} {lk'} i c c' e r) =
    let free : acquire i initlock c ≡ ok (taken lk', c') = ap (λ l. acquire i l c) (sym at) ∙ e in
    Run-IsExclusive_from (some i) (acquire-free i c c' lk' free) r
Run-IsExclusive_from (some h) at (take {lk} {lk'} i c c' e r) =
    acquire-held i h c c' lk' (ap (λ l. acquire i l c) (sym at) ∙ e)
Run-IsExclusive_from none at (give {lk} {lk'} i c c' e r) =
    release-free i c c' lk' (ap (λ l. release i l c) (sym at) ∙ e)
Run-IsExclusive_from (some h) at (give {lk} {lk'} i c c' e r) =
    let (same, free) = release-held i h c c' lk' (ap (λ l. release i l c) (sym at) ∙ e) in
    (same, Run-IsExclusive_from none free r)

-- Whatever the processors do with a lock that is free at first, it is never taken while it is held,
-- and only the processor that holds it gives it back.
pub Run-IsExclusive : (es : List Event) → Run initlock es → IsExclusive none es
Run-IsExclusive es r = Run-IsExclusive_from none refl r
