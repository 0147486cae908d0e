-- ===== src/Trap/Tests.antt =====
-- Runs of `trap`, and its theorem on them.
use os.Base.{◌≡◌, refl, true, false, none, some, [], ◌∷◌}
use os.Base.Result.{ok, panic}
use os.Machine.{TrapFrame}
use os.Proc.Sample.{user_frame, user_proc}
use os.Trap.{
  Run, returns, exits, syscalls, ticks, eoi, complains, yields, trap, trap_syscall, switch_trapno,
  unexpected, calls, call_all, finish, on_tick, check_killed, after_syscall,
}
use os.Trap.Alive.{Succeeds, succeeds, IsQuiet, IsAlive, trap-IsAlive}

abbrev timer_frame : TrapFrame
timer_frame = record user_frame { trapno = 32 }

-- A page fault, in the kernel.
abbrev kernel_fault : TrapFrame
kernel_fault = record user_frame { trapno = 14; cs = 8 }

-- System calls set eax to 7; while the process gives up the processor, another kills it.
abbrev killing : Run
killing = record {
  call = λ e. ok tt;
  syscall = λ p. ok (some (record p { tf = record p.tf { eax = 7 } }));
  yield = λ p. ok (record p { killed = true });
}

system_call :
    trap killing true user_frame (some user_proc)
    ≡ ok (syscalls ∷ [], returns (some (record user_proc { tf = record user_frame { eax = 7 } })))
unfolding trap trap_syscall after_syscall
system_call = refl

killed_in_yield :
    trap killing true timer_frame (some user_proc) ≡ ok (ticks ∷ eoi ∷ yields ∷ [], exits)
unfolding trap calls call_all switch_trapno finish on_tick check_killed
killed_in_yield = refl

-- A process that was in the kernel keeps running.
killed_in_kernel :
    trap killing false (record timer_frame { cs = 8 }) (some user_proc)
    ≡ ok (eoi ∷ yields ∷ [], returns (some (record user_proc { killed = true })))
unfolding trap calls call_all switch_trapno finish on_tick check_killed
killed_in_kernel = refl

misbehaves :
    trap killing true (record user_frame { trapno = 14 }) (some user_proc)
    ≡ ok (complains ∷ [], exits)
unfolding trap calls call_all switch_trapno unexpected finish
misbehaves = refl

in_kernel : trap killing true kernel_fault (some user_proc) ≡ panic "trap"
unfolding trap calls call_all switch_trapno unexpected
in_kernel = refl

idle : trap killing true timer_frame none ≡ ok (ticks ∷ eoi ∷ [], returns none)
unfolding trap calls call_all switch_trapno finish
idle = refl

killing-IsQuiet : IsQuiet killing
killing-IsQuiet = record {
  call = λ e. succeeds tt tt;
  syscall = λ p. succeeds _ tt;
  yield = λ p. succeeds _ tt;
}

trap-IsAlive_example : Succeeds (λ r. IsAlive r.1) (trap killing true timer_frame (some user_proc))
trap-IsAlive_example = trap-IsAlive killing killing-IsQuiet true timer_frame user_proc refl
