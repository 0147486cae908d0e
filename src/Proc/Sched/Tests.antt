-- ===== src/Proc/Sched/Tests.antt =====
-- The scheduler at a frozen process.
use os.Base.{◌≡◌, refl, true, false, none, [], ◌∷◌, set}
use os.Base.Int.{pos}
use os.Base.Result.{ok, fault}
use os.Proc.{Proc, runnable, sigkill, sigcont}
use os.Proc.Sample.{user_proc}
use os.Proc.Signal.{post_signal, kill}
use os.Proc.Sched.{visit}
use os.Proc.Sched.Frozen.{visit-kill, visit_frozen_kill}

abbrev stopped : Proc
stopped = record user_proc { state = runnable; freeze = true }

-- The default action for SIGCONT, and signal 3 is pending.
abbrev waiting : Proc
waiting = record stopped { pending_signals = 8; signal_handlers = [] }

visit-kill_example :
    let (r, ps') = kill (pos 3) (pos sigcont) (waiting ∷ []) in
    (r ≡ pos 0) × (visit 500 none 0 ps' ≡ fault)
visit-kill_example = visit-kill 500 (pos 3) 0 waiting (waiting ∷ []) (refl, refl) refl refl refl

visit_frozen_kill_example :
    let ps' = set (stopped ∷ []) 0 (post_signal sigkill stopped) in
    visit 500 none 0 ps' ≡ ok (false, ps')
visit_frozen_kill_example = visit_frozen_kill 500 0 stopped (stopped ∷ []) refl refl refl refl
