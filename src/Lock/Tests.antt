-- ===== src/Lock/Tests.antt =====
-- Locks of two processors.
use os.Base.{refl, true, false, none, some, [], ◌∷◌}
use os.Lock.{Cpu, Spinlock, initlock, pushcli, popcli, holding, acquire, release}
use os.Lock.Exclusion.{took, gave, Run, stop, spin, take, give, IsExclusive, Run-IsExclusive}

abbrev fresh : Cpu
fresh = record { ncli = 0; intena = false; flag = true }

abbrev inside : Cpu
inside = record { ncli = 1; intena = true; flag = false }

abbrev locked_by_0 : Spinlock
locked_by_0 = record { locked = true; cpu = some 0 }

-- Processor 0 takes the lock, 1 spins, 0 gives it back, and 1 takes it.
contest : Run initlock (took 0 ∷ gave 0 ∷ took 1 ∷ [])
unfolding acquire release holding pushcli popcli
contest = take {lk' = locked_by_0} 0 fresh inside refl (
    spin 1 fresh inside refl (
      give {lk' = initlock} 0 inside fresh' refl
        (take {lk' = record { locked = true; cpu = some 1 }} 1 fresh inside refl stop)))
  where
    fresh' : Cpu
    fresh' = record { ncli = 0; intena = true; flag = true }

Run-IsExclusive_example : IsExclusive none (took 0 ∷ gave 0 ∷ took 1 ∷ [])
Run-IsExclusive_example = Run-IsExclusive (took 0 ∷ gave 0 ∷ took 1 ∷ []) contest
