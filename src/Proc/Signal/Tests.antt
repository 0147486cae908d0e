-- ===== src/Proc/Signal/Tests.antt =====
-- Posting signals and setting actions, in a sample process.
use os.Base.{ℕ, ◌≡◌, ◌≢◌, ◌⊎◌, true, false, none, some, List, [], ◌∷◌, get_or, set, arith}
use os.Base.Int.{pos, minus_one}
use os.Base.Result.{ok}
use os.Proc.{Proc, unused}
use os.Proc.Sample.{user_proc}
use os.Proc.Signal.{SigAction, sigaction, kill}
use os.Proc.Signal.Kill.{NoPid, FirstPid, Posted, kill_lem}
use os.Proc.Signal.Action.{installed, action_of, sigaction_restores}

abbrev act : SigAction
act = record { sa_handler = 300; sigmask = 6 }

abbrev slots : List Proc
slots = user_proc ∷ record user_proc { pid = 0; state = unused } ∷ []

kill_lem_example :
    (NoPid (pos 3) slots × (kill (pos 3) (pos 5) slots ≡ (minus_one, slots)))
    ⊎ ((k : ℕ) × (p q : Proc) × FirstPid (pos 3) slots k p
        × Posted 5 p q
        × (kill (pos 3) (pos 5) slots ≡ (pos 0, set slots k q)))
kill_lem_example = kill_lem (pos 3) 5 slots (omega arith)

sigaction_restores_example :
    let q = installed 3 act user_proc in
    (sigaction (pos 3) act true user_proc ≡ ok (pos 0, q, some (action_of 3 user_proc)))
    × (action_of 3 q ≡ act)
    × ((j : ℕ) → 3 ≢ j → get_or q.signal_handlers j 0 ≡ get_or user_proc.signal_handlers j 0)
    × (sigaction (pos 3) (action_of 3 user_proc) false q ≡ ok (pos 0, user_proc, none))
sigaction_restores_example =
    sigaction_restores 3 act user_proc (omega arith) (omega arith) (omega arith) (omega arith)
