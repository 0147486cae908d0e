-- ===== src/Proc/Runner.antt =====
-- proc.c: `sig_handler_runner`, which trapasm.S calls before each return from a trap, and `sigret`.
-- `code` is the text between `start_implicit_sigret` and `done_implicit_sigret`, bytes that the
-- assembler makes of implicit_sigret.S. The runner's own printing is left out.
pub mod Step
pub mod Pending
pub mod Forced
pub mod Return
pub mod Nested
mod Tests
use os.Base.{
  ℕ, zero, suc, ◌+◌, Bool, true, false, not, ◌&&◌, List, ◌==◌, if◌then◌else◌, length, get_or,
  bit_and, bit_xor,
}
use os.Machine.{
  Mem, TrapFrame, frame_size, add32, sub32, store32, store_bytes, store_frame, load_frame,
}
use os.Proc.{Proc, sig_dfl, sig_ign, sigkill, sigstop, sigcont, sig_bit}
use os.Proc.Signal.{sigkill_handler, sigstop_handler, sigcont_handler}

-- A process and the memory of its address space.
abbrev pub Task : Type 0
Task = Proc × Mem

module _ (code : List ℕ) where
  -- The user stack and frame for a user handler of signal `i`.
  pub deliver : ℕ → Task → Task
  deliver i (p, m) =
      let backup : ℕ = sub32 p.tf.esp frame_size in
      let m1 : Mem = store_frame m backup (record (p.tf) { esp = backup }) in
      let text : ℕ = sub32 backup (length code) in
      let m2 : Mem = store_bytes m1 text code in
      let m3 : Mem = store32 m2 (sub32 text 4) i in
      let m4 : Mem = store32 m3 (sub32 text 8) text in
      (
        record p {
          tf = record (p.tf) { esp = sub32 text 8; eip = get_or p.signal_handlers i 0 };
          user_trap_fram_backup = backup;
        },
        m4,
      )

  -- What is done for a pending signal that the mask does not block.
  pub handle : ℕ → Task → Task
  unfolding deliver
  handle i (p, m) =
      let handler : ℕ = get_or p.signal_handlers i 0 in
      if i == sigcont && handler == sig_dfl
      then (sigcont_handler p, m)
      else if handler == sig_dfl
      then (sigkill_handler p, m)
      else if handler == sig_ign
      then (p, m)
      else deliver i (p, m)

  -- The body of the loop for a pending signal, after its bit is cleared.
  pub dispatch : ℕ → ℕ → Task → Task
  dispatch i sig (p, m) =
      if i == sigstop
      then (sigstop_handler p, m)
      else if i == sigkill
      then (sigkill_handler p, m)
      else if bit_and p.signal_mask sig == 0
      then handle i (p, m)
      else (p, m)

  pub run_signal : ℕ → Task → Task
  run_signal i (p, m) =
      let sig : ℕ = bit_and p.pending_signals (sig_bit i) in
      if sig == 0
      then (p, m)
      else dispatch i sig (record p { pending_signals = bit_xor p.pending_signals (sig_bit i) }, m)

  -- `for (int i = ...; ...; i++)` with `n` rounds left
  pub run_signals : ℕ → ℕ → Task → Task
  run_signals zero i t = t
  run_signals (suc n) i t = run_signals n (i + 1) (run_signal i t)

  -- Nothing is done on the way back to the kernel.
  pub sig_handler_runner : Task → Task
  sig_handler_runner (p, m) = if bit_and p.tf.cs 3 == 3 then run_signals 32 0 (p, m) else (p, m)

unfoldable pub sigret : Task → Task
sigret (p, m) =
    let saved : TrapFrame = load_frame m p.user_trap_fram_backup in
    (record p { tf = record saved { esp = add32 saved.esp frame_size } }, m)
