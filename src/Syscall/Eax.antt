-- ===== src/Syscall/Eax.antt =====
-- syscall.c with sysproc.c and proc.c: what a return from a signal handler leaves in %eax.
use os.Base.{ℕ, ◌<◌, ◌≡◌, ◌≢◌, refl, ap, Option, some, List, bit_and}
use os.Base.Bits.{bit}
use os.Base.Result.{Result, ok}
use os.Machine.{Mem, TrapFrame, frame_size}
use os.Machine.Frame.{IsFrame, Agree}
use os.Proc.{Proc}
use os.Proc.Runner.{Task, sig_handler_runner, sigret}
use os.Proc.Runner.Return.{HasRoom}
use os.Proc.Runner.Nested.{Handled, sigret-sig_handler_runner}
use os.Syscall.{syscall, sys_sigret}

module _ (code : List ℕ) (syscalls : ℕ → Option (Task → Result (ℕ × Task))) where
  -- A pass on the way to user mode with one pending signal, below 32, not blocked, not SIGKILL or
  -- SIGSTOP, and with a user handler; the registers are 32-bit words and the user stack has room.
  -- When the handler returns by system call 24, which is `sys_sigret`, with the saved frame and the
  -- kernel's pointer to it left alone, the interrupted frame is back, except that `eax` is 0: the
  -- result of `sys_sigret` is stored over it.
  pub syscall_sigret_eax :
      (i : ℕ) (p q : Proc) (m n : Mem)
      → syscalls 24 ≡ some sys_sigret
      → q.tf.eax ≡ 24
      → i < 32
      → bit_and p.tf.cs 3 ≡ 3
      → ((j : ℕ) → j < 32 → j ≢ i → bit p.pending_signals j ≡ 0)
      → bit p.pending_signals i ≡ 1
      → Handled i p
      → IsFrame p.tf
      → HasRoom code p
      → q.user_trap_fram_backup ≡ (sig_handler_runner code (p, m)).0.user_trap_fram_backup
      → Agree (sig_handler_runner code (p, m)).1 n q.user_trap_fram_backup frame_size
      → (t : Task) × (syscall syscalls (q, n) ≡ ok t) × (t.0.tf ≡ record (p.tf) { eax = 0 })
  unfolding syscall sys_sigret
  syscall_sigret_eax i p q m n entry number lt user others set h v room e same =
      let restored : (sigret (q, n)).0.tf ≡ p.tf =
        sigret-sig_handler_runner code i p q m n lt user others set h v room e same in
      (
        (
          record (sigret (q, n)).0 { tf = record (sigret (q, n)).0.tf { eax = 0 } },
          (sigret (q, n)).1,
        ),
        rw (syscall, number, entry) refl,
        ap (λ (f : TrapFrame). record f { eax = 0 }) restored,
      )
