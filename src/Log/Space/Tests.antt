-- ===== src/Log/Space/Tests.antt =====
-- Operations on a log of the size that mkfs gives it.
use os.Base.{ℕ, zero, suc, ◌≡◌, refl, false, List, [], ◌∷◌}
use os.Base.Result.{panic}
use os.Log.Space.{LogOps, log_write}

abbrev empty_log : LogOps
empty_log = record { blocks = []; outstanding = 0; committing = false; size = 30 }

-- Block 5 has been written by the first of two operations.
abbrev begun : LogOps
begun = record { blocks = 5 ∷ []; outstanding = 2; committing = false; size = 30 }

abbrev numbers : ℕ → List ℕ
numbers zero = []
numbers (suc n) = n ∷ numbers n

-- With 29 blocks in the list, and an operation that has begun, the next write panics.
full_at_29 :
    log_write 29 (record { blocks = numbers 29; outstanding = 1; committing = false; size = 30 })
    ≡ panic "too big a transaction"
unfolding log_write
full_at_29 = refl
