-- ===== src/Trap/Alive.antt =====
-- trap.c: how a trap from user space ends.
use os.Base.{
  List, [], ◌∷◌, ◌+◌, ◌≡◌, refl, Bool, true, false, ◌&&◌, Option, none, some, ◌==◌, if◌then◌else◌,
  arith,
}
use os.Base.Result.{Result, ok, ◌>>=◌, ◌>>◌}
use os.Machine.{TrapFrame}
use os.Proc.{Proc}
use os.Proc.Fork.{is_running}
use os.Trap.{
  Event, complains, Run, End, returns, exits, from_user, from_kernel, t_irq0, irq_timer, call_all,
  calls, check_killed, finish, switch_trapno, on_tick, unexpected, after_syscall, trap_syscall,
  trap, t_syscall,
}

-- The process with which the trap returns, if it does, is not killed.
abbrev pub IsAlive : End → Type 0
IsAlive exits = Unit {0}
IsAlive (returns none) = Unit {0}
IsAlive (returns (some p)) = p.killed ≡ false

-- There is no panic and no fault, and what is returned has the property.
pub data Succeeds {A : Type 0} (P : A → Type 0) : Result A → Type 0 where
  succeeds : (a : A) → P a → Succeeds P (ok a)

Succeeds-if :
    {A : Type 0} (P : A → Type 0) (b : Bool) (r s : Result A)
    → (b ≡ true → Succeeds P r)
    → (b ≡ false → Succeeds P s)
    → Succeeds P (if b then r else s)
Succeeds-if P true r s h k = h refl
Succeeds-if P false r s h k = k refl

Succeeds-bind :
    {A B : Type 0} (P : A → Type 0) (Q : B → Type 0) (m : Result A) (f : A → Result B)
    → Succeeds P m
    → ((a : A) → P a → Succeeds Q (f a))
    → Succeeds Q (m >>= f)
Succeeds-bind P Q _ f (succeeds a h) k = k a h

exits_or :
    (b : Bool) (p : Proc)
    → (b ≡ false → p.killed ≡ false)
    → IsAlive (if b then exits else returns (some p))
exits_or true p alive = tt
exits_or false p alive = alive refl

after_syscall-IsAlive : (p : Option Proc) → IsAlive (after_syscall p)
unfolding after_syscall
after_syscall-IsAlive none = tt
after_syscall-IsAlive (some p) = exits_or p.killed p (λ h. h)

check_killed-IsAlive :
    (tf : TrapFrame) (p : Option Proc) → from_user tf ≡ true → IsAlive (check_killed tf p)
unfolding check_killed
check_killed-IsAlive tf none user = tt
check_killed-IsAlive tf (some p) user =
    exits_or (p.killed && from_user tf) p (λ h. ground (arith, h, user))

either :
    {A : Type 0} (P : A → Type 0) (b : Bool) (r s : Result A)
    → Succeeds P r
    → Succeeds P s
    → Succeeds P (if b then r else s)
either P b r s h k = Succeeds-if P b r s (λ _. h) (λ _. k)

-- No routine that `trap` calls panics.
pub record IsQuiet (run : Run) : Type 0 where
  pub call : (e : Event) → Succeeds (λ _. Unit {0}) (run.call e)
  pub syscall : (p : Proc) → Succeeds (λ _. Unit {0}) (run.syscall p)
  pub yield : (p : Proc) → Succeeds (λ _. Unit {0}) (run.yield p)

call_then :
    {B : Type 0} (Q : B → Type 0) (m : Result (Unit {0})) (r : Result B)
    → Succeeds (λ _. Unit {0}) m
    → Succeeds Q r
    → Succeeds Q (m >> r)
call_then Q _ r (succeeds a h) k = k

module _ (run : Run) (quiet : IsQuiet run) where
  call_all-Succeeds : (events : List Event) → Succeeds (λ _. Unit {0}) (call_all run events)
  unfolding call_all
  call_all-Succeeds [] = succeeds tt tt
  call_all-Succeeds (e ∷ events) =
      call_then _ (run.call e) (call_all run events) (quiet.call e) (call_all-Succeeds events)

  calls-Succeeds :
      (events : List Event) (p : Option Proc) → Succeeds (λ _. Unit {0}) (calls run events p)
  unfolding calls
  calls-Succeeds events p =
      call_then _ (call_all run events) (ok (events, p)) (call_all-Succeeds events) (succeeds _ tt)

  unexpected-Succeeds :
      (tf : TrapFrame) (p : Proc)
      → from_user tf ≡ true
      → Succeeds (λ _. Unit {0}) (unexpected run tf (some p))
  unfolding unexpected
  unexpected-Succeeds tf p user =
      Succeeds-if _ (from_kernel tf) _ _ (λ h. absurd (ground (arith, h, user)))
        (λ _. calls-Succeeds (complains ∷ []) (some (record p { killed = true })))

  switch_trapno-Succeeds :
      (cpu0 : Bool) (tf : TrapFrame) (p : Proc)
      → from_user tf ≡ true
      → Succeeds (λ _. Unit {0}) (switch_trapno run cpu0 tf (some p))
  unfolding switch_trapno
  switch_trapno-Succeeds cpu0 tf p user =
      let last : Succeeds (λ _. Unit {0}) (unexpected run tf (some p)) =
        unexpected-Succeeds tf p user in
      search (either, calls-Succeeds, last) depth 12

  on_tick-Succeeds : (tf : TrapFrame) (p : Proc) → Succeeds (λ _. Unit {0}) (on_tick run tf p)
  unfolding on_tick
  on_tick-Succeeds tf p =
      either _ (is_running p.state && tf.trapno == t_irq0 + irq_timer) _ _
        (Succeeds-bind _ _ (run.yield p) _ (quiet.yield p) (λ q _. succeeds _ tt)) (succeeds _ tt)

  finish-IsAlive :
      (tf : TrapFrame) (p : Option Proc)
      → from_user tf ≡ true
      → Succeeds (λ r. IsAlive r.1) (finish run tf p)
  unfolding finish
  finish-IsAlive tf none user = succeeds _ tt
  finish-IsAlive tf (some p) user =
      either _ (p.killed && from_user tf) (ok ([], exits)) _ (succeeds _ tt) (
        Succeeds-bind _ _ (on_tick run tf p) _ (on_tick-Succeeds tf p)
          (λ r _. succeeds _ (check_killed-IsAlive tf (some r.1) user)))

  -- A trap from user space with a current process, if the routines that `trap` calls do not panic:
  -- `trap` itself does not, and if it returns with a process and does not call `exit`, then that
  -- process is not killed: not before the trap, nor by it, nor in the system call, nor while it had
  -- given up the processor.
  pub trap-IsAlive :
      (cpu0 : Bool) (tf : TrapFrame) (p : Proc)
      → from_user tf ≡ true
      → Succeeds (λ r. IsAlive r.1) (trap run cpu0 tf (some p))
  unfolding trap trap_syscall
  trap-IsAlive cpu0 tf p user =
      either _ (tf.trapno == t_syscall) _ _
        (either _ p.killed (ok ([], exits)) _ (succeeds _ tt) (
          Succeeds-bind _ _ (run.syscall (record p { tf = tf })) _
            (quiet.syscall (record p { tf = tf })) (λ q _. succeeds _ (after_syscall-IsAlive q))))
        (Succeeds-bind _ _ (switch_trapno run cpu0 tf (some p)) _
          (switch_trapno-Succeeds cpu0 tf p user)
          (λ r _.
            Succeeds-bind _ _ (finish run tf r.1) _ (finish-IsAlive tf r.1 user)
              (λ r h. succeeds _ h)))
