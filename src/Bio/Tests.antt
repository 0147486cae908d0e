-- ===== src/Bio/Tests.antt =====
-- A cache of two buffers.
use os.Base.{ℕ, refl, inl, true, false, [], ◌∷◌}
use os.Machine.{Mem}
use os.Lock.{Sleeplock, initsleeplock, acquiresleep, holdingsleep}
use os.Bio.{Buf, find_buf, find_back, update, get_buf, bget, lock_buf, iderw, bread_locked}
use os.Bio.Once.{IsOnce}
use os.Bio.Shared.{Reach, here, next, gets, locks, reads, Reach-IsOnce}

abbrev disk : ℕ → Mem
disk b x = b

abbrev held : Sleeplock
held = record { locked = true; pid = 3 }

abbrev fresh : ℕ → Buf
fresh id = record {
  id = id;
  dev = 0;
  blockno = 0;
  valid = false;
  dirty = false;
  lock = initsleeplock;
  refcnt = 0;
  bytes = λ x. 0;
}

-- Buffer 0 is for block 7.
abbrev seven : Buf
seven = record (fresh 0) { dev = 1; blockno = 7; refcnt = 1 }

-- Process 3 gets block 7, locks its buffer and reads it.
run :
    Reach 1000
      (fresh 1 ∷ fresh 0 ∷ [])
      (fresh 1 ∷ record seven { lock = held; valid = true; bytes = λ x. 7 } ∷ [])
unfolding bget lock_buf bread_locked iderw get_buf find_buf find_back update acquiresleep
    holdingsleep
run =
    next
      (next {d = fresh 1 ∷ seven ∷ []} (next here (gets 1 7 0 refl))
        (locks {c' = fresh 1 ∷ record seven { lock = held } ∷ []} 3 0 refl))
      (reads 3 0 disk disk refl)

Reach-IsOnce_example :
    IsOnce (fresh 1 ∷ record seven { lock = held; valid = true; bytes = λ x. 7 } ∷ [])
Reach-IsOnce_example =
    Reach-IsOnce {disksize = 1000} {c = fresh 1 ∷ fresh 0 ∷ []}
      {c' = fresh 1 ∷ record seven { lock = held; valid = true; bytes = λ x. 7 } ∷ []}
      (inl refl, (inl refl, tt)) run
