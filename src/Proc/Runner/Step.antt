-- ===== src/Proc/Runner/Step.antt =====
-- One round of the loop of `sig_handler_runner`, and the rule for the loop.
use os.Base.{ℕ, zero, suc, ◌+◌, ◌^◌, ◌≤◌, ◌<◌, ◌≡◌, ◌≢◌, List, bit_and, bit_xor, arith}
use os.Base.Bits.{
  bit, bit-le, bit_and-pow-eq_zero, bit_and-pow_set, bit-clear_self, bit-clear_ne, bit_xor-lt,
  pow-lt,
}
use os.Machine.{Mem}
use os.Proc.{Proc, sig_bit, sigkill, sigstop}
use os.Proc.Signal.{sigkill_handler, sigstop_handler, sigcont_handler}
use os.Proc.Runner.{Task, handle, dispatch, run_signal, run_signals}

module _ (code : List ℕ) where
  pub pending-dispatch :
      (i sig : ℕ) (p : Proc) (m : Mem)
      → (dispatch code i sig (p, m)).0.pending_signals ≡ p.pending_signals
  unfolding dispatch handle sigkill_handler sigstop_handler sigcont_handler
  pending-dispatch i sig p m = ground arith

  -- One round clears its own bit.
  pub pending-run_signal_self :
      (i : ℕ) (p : Proc) (m : Mem) → bit (run_signal code i (p, m)).0.pending_signals i ≡ 0
  unfolding run_signal
  pending-run_signal_self i p m = ground (
    arith,
    bit_and-pow-eq_zero i p.pending_signals,
    bit-le i p.pending_signals,
    bit-clear_self i p.pending_signals,
    pending-dispatch i (bit_and p.pending_signals (sig_bit i))
        (record p { pending_signals = bit_xor p.pending_signals (sig_bit i) }) m,
  )

  pub pending-run_signal_ne :
      (i j : ℕ) (p : Proc) (m : Mem)
      → i ≢ j
      → bit (run_signal code i (p, m)).0.pending_signals j ≡ bit p.pending_signals j
  unfolding run_signal
  pending-run_signal_ne i j p m h = ground (
    arith,
    bit-clear_ne i j p.pending_signals h,
    pending-dispatch i (bit_and p.pending_signals (sig_bit i))
        (record p { pending_signals = bit_xor p.pending_signals (sig_bit i) }) m,
  )

  pub pending-run_signal-lt :
      (i : ℕ) (p : Proc) (m : Mem)
      → i < 32
      → p.pending_signals < 2 ^ 32
      → (run_signal code i (p, m)).0.pending_signals < 2 ^ 32
  unfolding run_signal
  pending-run_signal-lt i p m lt h = ground (
    arith,
    bit_xor-lt 32 p.pending_signals (sig_bit i) h (pow-lt i 32 lt),
    pending-dispatch i (bit_and p.pending_signals (sig_bit i))
        (record p { pending_signals = bit_xor p.pending_signals (sig_bit i) }) m,
  )

  -- The rule for the loop: the end `j` is a variable with an equation.
  pub run_signals_inv {κ} :
      (P : ℕ → Task → Type κ)
      → ((i : ℕ) (t : Task) → i < 32 → P i t → P (i + 1) (run_signal code i t))
      → (n i j : ℕ) (t : Task) → i + n ≡ j
      → j ≤ 32
      → P i t
      → P j (run_signals code n i t)
  unfolding run_signals
  run_signals_inv P keep zero i j t e l h = let e' : i ≡ j = omega arith in rw (← e') h
  run_signals_inv P keep (suc n) i j t e l h =
      run_signals_inv P keep n (i + 1) j (run_signal code i t) (omega arith) l
        (keep i t (omega arith) h)

  pub run_signal_blocked :
      (i : ℕ) (p : Proc) (m : Mem)
      → bit p.pending_signals i ≡ 1
      → bit p.signal_mask i ≡ 1
      → i ≢ sigkill
      → i ≢ sigstop
      → run_signal code i (p, m)
        ≡ (record p { pending_signals = bit_xor p.pending_signals (sig_bit i) }, m)
  unfolding run_signal dispatch
  run_signal_blocked i p m set blocked kill stop = ground (
    arith,
    bit_and-pow-eq_zero i p.pending_signals,
    bit_and-pow_set i p.pending_signals set,
    bit_and-pow-eq_zero i p.signal_mask,
  )

  pub run_signal_absent :
      (i : ℕ) (p : Proc) (m : Mem) → bit p.pending_signals i ≡ 0 → run_signal code i (p, m) ≡ (p, m)
  unfolding run_signal
  run_signal_absent i p m h = ground (arith, bit_and-pow-eq_zero i p.pending_signals)
