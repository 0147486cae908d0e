-- ===== src/Proc/Runner/Forced.antt =====
-- SIGKILL and SIGSTOP act in the next pass, whatever the mask and the handlers are.
use os.Base.{
  ℕ, ◌+◌, ◌≤◌, ◌<◌, ◌≡◌, ap, ◌∙◌, ◌⊎◌, inl, inr, true, false, List, ◌==◌, bit_and, arith,
  Bool-cases,
}
use os.Base.Bits.{bit, bit_and-pow-eq_zero}
use os.Machine.{Mem}
use os.Proc.{Proc, is_sleeping, sigkill, sigstop, sigcont}
use os.Proc.Signal.{sigkill_handler, sigstop_handler, sigcont_handler}
use os.Proc.Runner.{Task, handle, dispatch, run_signal, run_signals, sig_handler_runner}
use os.Proc.Runner.Step.{pending-run_signal_self, pending-run_signal_ne, run_signals_inv}

module _ (code : List ℕ) where
  -- SIGKILL has been handled, or is still to come in this pass.
  abbrev pub Doomed : ℕ → Task → Type 0
  Doomed i t = (t.0.killed ≡ true) ⊎ ((bit t.0.pending_signals sigkill ≡ 1) × (i ≤ sigkill))

  killed-run_signal :
      (i : ℕ) (p : Proc) (m : Mem) → p.killed ≡ true → (run_signal code i (p, m)).0.killed ≡ true
  unfolding run_signal dispatch handle sigkill_handler sigstop_handler sigcont_handler
  killed-run_signal i p m h = ground arith

  killed-run_signal-sigkill :
      (p : Proc) (m : Mem)
      → bit p.pending_signals sigkill ≡ 1
      → (run_signal code sigkill (p, m)).0.killed ≡ true
  unfolding run_signal dispatch handle sigkill_handler sigstop_handler sigcont_handler
  killed-run_signal-sigkill p m h = ground (arith, bit_and-pow-eq_zero sigkill p.pending_signals)

  run_signal-Doomed :
      (i : ℕ) (t : Task) → i < 32 → Doomed i t → Doomed (i + 1) (run_signal code i t)
  run_signal-Doomed i (p, m) lt (inl dead) = inl (killed-run_signal i p m dead)
  run_signal-Doomed i (p, m) lt (inr (set, le)) = elim (Bool-cases (i == sigkill)) [
    | inl now ↦ let e : i ≡ sigkill = ground arith in inl (rw e (killed-run_signal-sigkill p m set))
    | inr later ↦ inr (pending-run_signal_ne code i sigkill p m (ground arith) ∙ set, ground arith)
  ]

  -- On the way to user mode, a pending SIGKILL marks the process killed, whatever the mask and the
  -- handlers are.
  pub killed-sig_handler_runner :
      (p : Proc) (m : Mem)
      → bit_and p.tf.cs 3 ≡ 3
      → bit p.pending_signals sigkill ≡ 1
      → (sig_handler_runner code (p, m)).0.killed ≡ true
  unfolding sig_handler_runner
  killed-sig_handler_runner p m user set = rw user (
      dead (run_signals code 32 0 (p, m)) (
        run_signals_inv code Doomed run_signal-Doomed 32 0 32 (p, m) (omega arith) (omega arith)
          (inr (set, omega arith))))
    where
      dead : (t : Task) → Doomed 32 t → t.0.killed ≡ true
      dead t (inl h) = h
      dead t (inr h) = absurd (omega arith)

  -- SIGSTOP is to come in this pass, or has frozen the process; no SIGCONT is pending.
  abbrev pub Stopping : ℕ → Task → Type 0
  Stopping i t =
      (is_sleeping t.0.state ≡ false)
      × (bit t.0.pending_signals sigcont ≡ 0)
      × (((bit t.0.pending_signals sigstop ≡ 1) × (i ≤ sigstop)) ⊎ (t.0.freeze ≡ true))

  state-run_signal : (i : ℕ) (p : Proc) (m : Mem) → (run_signal code i (p, m)).0.state ≡ p.state
  unfolding run_signal dispatch handle sigkill_handler sigstop_handler sigcont_handler
  state-run_signal i p m = ground arith

  -- Only SIGCONT's default action thaws.
  freeze-run_signal :
      (i : ℕ) (p : Proc) (m : Mem)
      → bit p.pending_signals sigcont ≡ 0
      → p.freeze ≡ true
      → (run_signal code i (p, m)).0.freeze ≡ true
  unfolding run_signal dispatch handle sigkill_handler sigstop_handler sigcont_handler
  freeze-run_signal i p m none_pending h =
      ground (arith, bit_and-pow-eq_zero sigcont p.pending_signals)

  freeze-run_signal-sigstop :
      (p : Proc) (m : Mem)
      → is_sleeping p.state ≡ false
      → bit p.pending_signals sigstop ≡ 1
      → (run_signal code sigstop (p, m)).0.freeze ≡ true
  unfolding run_signal dispatch handle sigkill_handler sigstop_handler sigcont_handler
  freeze-run_signal-sigstop p m awake h =
      ground (arith, bit_and-pow-eq_zero sigstop p.pending_signals)

  sigcont-run_signal :
      (i : ℕ) (p : Proc) (m : Mem)
      → bit p.pending_signals sigcont ≡ 0
      → bit (run_signal code i (p, m)).0.pending_signals sigcont ≡ 0
  sigcont-run_signal i p m h = elim (Bool-cases (i == sigcont)) [
    | inl same ↦
        let e : i ≡ sigcont = ground arith in rw e (pending-run_signal_self code sigcont p m)
    | inr other ↦ pending-run_signal_ne code i sigcont p m (ground arith) ∙ h
  ]

  run_signal-Stopping :
      (i : ℕ) (t : Task) → i < 32 → Stopping i t → Stopping (i + 1) (run_signal code i t)
  run_signal-Stopping i (p, m) lt (awake, cont, stage) =
      (ap is_sleeping (state-run_signal i p m) ∙ awake, sigcont-run_signal i p m cont, next stage)
    where
      next :
          ((bit p.pending_signals sigstop ≡ 1) × (i ≤ sigstop)) ⊎ (p.freeze ≡ true)
          → ((bit (run_signal code i (p, m)).0.pending_signals sigstop ≡ 1) × (i + 1 ≤ sigstop))
            ⊎ ((run_signal code i (p, m)).0.freeze ≡ true)
      next (inr frozen) = inr (freeze-run_signal i p m cont frozen)
      next (inl (set, le)) = elim (Bool-cases (i == sigstop)) [
        | inl now ↦
            let e : i ≡ sigstop = ground arith in
            inr (rw e (freeze-run_signal-sigstop p m awake set))
        | inr later ↦
            inl (pending-run_signal_ne code i sigstop p m (ground arith) ∙ set, ground arith)
      ]

  -- On the way to user mode, a pending SIGSTOP freezes a process that is not sleeping, whatever the
  -- mask and the handlers are, unless SIGCONT is pending too.
  pub freeze-sig_handler_runner :
      (p : Proc) (m : Mem)
      → bit_and p.tf.cs 3 ≡ 3
      → is_sleeping p.state ≡ false
      → bit p.pending_signals sigstop ≡ 1
      → bit p.pending_signals sigcont ≡ 0
      → (sig_handler_runner code (p, m)).0.freeze ≡ true
  unfolding sig_handler_runner
  freeze-sig_handler_runner p m user awake set cont = rw user (
      frozen (run_signals code 32 0 (p, m)) (
        run_signals_inv code Stopping run_signal-Stopping 32 0 32 (p, m) (omega arith) (omega arith)
          (awake, cont, inl (set, omega arith))))
    where
      frozen : (t : Task) → Stopping 32 t → t.0.freeze ≡ true
      frozen t (_, _, inr h) = h
      frozen t (_, _, inl h) = absurd (omega arith)
