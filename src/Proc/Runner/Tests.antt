-- ===== src/Proc/Runner/Tests.antt =====
-- Signals caught on the way to user mode, in a sample process.
use os.Base.{ℕ, ◌+◌, ◌-◌, ◌<◌, ◌≡◌, ◌≢◌, refl, sym, ap, ◌∙◌, List, [], ◌∷◌, length, get_or, arith}
use os.Base.Bits.{bit, bit-set_ne, bit-zero}
use os.Machine.{frame_size, load32, frame_words}
use os.Machine.Frame.{IsFrame}
use os.Proc.{Proc}
use os.Base.{Option, some, none, ◌==◌, if◌then◌else◌}
use os.Base.Result.{Result, ok}
use os.Syscall.{syscall, sys_sigret}
use os.Syscall.Eax.{syscall_sigret_eax}
use os.Proc.Sample.{user_frame, user_proc, zero_mem}
use os.Proc.Runner.{
  Task, deliver, handle, dispatch, run_signal, run_signals, sig_handler_runner, sigret,
}
use os.Proc.Runner.Pending.{AllBlocked, sig_handler_runner_blocked}
use os.Proc.Runner.Return.{HasRoom, deliver_entry}
use os.Proc.Runner.Nested.{Handled, sigret-sig_handler_runner, sigret-sig_handler_runner_two}

abbrev code : List ℕ
code = 184 ∷ 24 ∷ 0 ∷ 0 ∷ 0 ∷ 205 ∷ 64 ∷ []

abbrev signalled : ℕ → Proc
signalled set = record user_proc { pending_signals = set }

-- Signal 3 is pending, and its handler is set.
abbrev three : Proc
three = signalled 8

abbrev both : Proc
both = signalled 24

abbrev blocked : Proc
blocked = record three { signal_mask = 8 }

abbrev after : Proc → Task
after p = sig_handler_runner code (p, zero_mem)

user_frame-IsFrame : IsFrame user_frame
unfolding frame_words
user_frame-IsFrame = omega arith

user_proc-HasRoom : (set : ℕ) → HasRoom code (signalled set)
user_proc-HasRoom set = omega arith

three-bits : (j : ℕ) → j < 32 → j ≢ 3 → bit 8 j ≡ 0
three-bits j lt ne = bit-set_ne 3 j 0 (λ e. ne (sym e)) ∙ bit-zero j

both-bits : (j : ℕ) → j < 32 → j ≢ 3 → j ≢ 4 → bit 24 j ≡ 0
both-bits j lt ne ne' =
    bit-set_ne 4 j 8 (λ e. ne' (sym e)) ∙ bit-set_ne 3 j 0 (λ e. ne (sym e)) ∙ bit-zero j

blocked-AllBlocked : AllBlocked code blocked
blocked-AllBlocked i h = (
  h,
  (λ e. let clear : bit 8 i ≡ 0 = ap (bit 8) e in omega arith),
  (λ e. let clear : bit 8 i ≡ 0 = ap (bit 8) e in omega arith),
)

three-Handled : (set : ℕ) → Handled 3 (signalled set)
three-Handled set = record {
  unblocked = refl;
  not_kill = omega arith;
  not_stop = omega arith;
  not_default = omega arith;
  not_ignored = omega arith;
}

four-Handled : (set : ℕ) → Handled 4 (signalled set)
four-Handled set = record {
  unblocked = refl;
  not_kill = omega arith;
  not_stop = omega arith;
  not_default = omega arith;
  not_ignored = omega arith;
}

handler_runs : (after three).0.tf.eip ≡ 200
unfolding sig_handler_runner run_signals run_signal dispatch handle deliver
handler_runs = refl

sigret-sig_handler_runner_example : (sigret (after three)).0.tf ≡ user_frame
sigret-sig_handler_runner_example =
    sigret-sig_handler_runner code 3 three (after three).0 zero_mem (after three).1 (omega arith)
      refl three-bits refl (three-Handled 8) user_frame-IsFrame (user_proc-HasRoom 8) refl
      (λ x h h'. refl)

sigret-sig_handler_runner_two_example :
    let tf = (sigret (after both)).0.tf in (tf.eip ≡ 200) × (tf.esp < 4096) × (tf ≢ user_frame)
sigret-sig_handler_runner_two_example =
    sigret-sig_handler_runner_two code 3 4 both (after both).0 zero_mem (after both).1 (omega arith)
      (omega arith) refl both-bits refl refl (three-Handled 24) (four-Handled 24) user_frame-IsFrame
      (omega arith) (omega arith) refl (λ x h h'. refl)

sig_handler_runner_blocked_example :
    after blocked ≡ (record blocked { pending_signals = 0 }, zero_mem)
sig_handler_runner_blocked_example =
    sig_handler_runner_blocked code blocked zero_mem refl (omega arith) blocked-AllBlocked

deliver_entry_example :
    let (q, n) = deliver code 3 (three, zero_mem) in
    (q.tf.eip ≡ get_or three.signal_handlers 3 0)
    × (load32 n q.tf.esp ≡ three.tf.esp - frame_size - length code)
    × (load32 n (q.tf.esp + 4) ≡ 3)
    × ((k : ℕ) → k < length code → n (load32 n q.tf.esp + k) ≡ get_or code k 0)
deliver_entry_example = deliver_entry code 3 three zero_mem (omega arith) (user_proc-HasRoom 8)

-- A table of system calls with `sys_sigret` alone.
abbrev only_sigret : ℕ → Option (Task → Result (ℕ × Task))
only_sigret n = if n == 24 then some sys_sigret else none

-- The process as the code on its stack calls `sigret`.
abbrev returning : Proc
returning = record (after three).0 { tf = record (after three).0.tf { eax = 24 } }

syscall_sigret_eax_example :
    (t : Task) × (syscall only_sigret (returning, (after three).1) ≡ ok t)
    × (t.0.tf ≡ record user_frame { eax = 0 })
syscall_sigret_eax_example =
    syscall_sigret_eax code only_sigret 3 three returning zero_mem (after three).1 refl refl
      (omega arith) refl three-bits refl (three-Handled 8) user_frame-IsFrame (user_proc-HasRoom 8)
      refl (λ x h h'. refl)
