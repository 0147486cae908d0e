-- ===== src/Proc/Runner/Pending.antt =====
-- What one pass of `sig_handler_runner` does to the pending set.
use os.Base.{
  ℕ, ◌+◌, ◌^◌, ◌<◌, ◌≤◌, ◌≡◌, ◌≢◌, refl, sym, ap, ◌∙◌, inl, inr, List, ◌==◌, bit_and, bit_xor,
  arith, Bool-cases,
}
use os.Base.Bits.{bit, bit-le, bits-zero, bit-clear-le, bit-cases}
use os.Machine.{Mem}
use os.Proc.{Proc, sig_bit, sigkill, sigstop}
use os.Proc.Runner.{Task, run_signal, run_signals, sig_handler_runner}
use os.Proc.Runner.Step.{
  pending-run_signal_self, pending-run_signal_ne, pending-run_signal-lt, run_signals_inv,
  run_signal_blocked, run_signal_absent,
}

module _ (code : List ℕ) where
  -- The signals below `i` are done.
  abbrev pub DoneBelow : ℕ → Task → Type 0
  DoneBelow i t = (t.0.pending_signals < 2 ^ 32) × ((j : ℕ) → j < i → bit t.0.pending_signals j ≡ 0)

  run_signal-DoneBelow :
      (i : ℕ) (t : Task) → i < 32 → DoneBelow i t → DoneBelow (i + 1) (run_signal code i t)
  run_signal-DoneBelow i (p, m) lt (small, below) = (
    pending-run_signal-lt code i p m lt small,
    λ j h. elim (Bool-cases (i == j)) [
      | inl same ↦ ground (arith, pending-run_signal_self code i p m)
      | inr other ↦
          ground (arith, pending-run_signal_ne code i j p m (ground arith), below j (ground arith))
    ],
  )

  -- After a pass on the way to user mode none of the 32 signals is pending any more, blocked or
  -- not.
  pub pending-sig_handler_runner :
      (p : Proc) (m : Mem)
      → bit_and p.tf.cs 3 ≡ 3
      → p.pending_signals < 2 ^ 32
      → (sig_handler_runner code (p, m)).0.pending_signals ≡ 0
  unfolding sig_handler_runner
  pending-sig_handler_runner p m user small = rw user (
      let done : DoneBelow 32 (run_signals code 32 0 (p, m)) =
        run_signals_inv code DoneBelow run_signal-DoneBelow 32 0 32 (p, m) (omega arith)
          (omega arith) (small, λ j h. absurd (omega arith)) in
      bits-zero 32 _ done.0 done.1)

  -- Each pending signal is blocked, and is neither SIGKILL nor SIGSTOP.
  abbrev pub AllBlocked : Proc → Type 0
  AllBlocked p =
      (i : ℕ)
      → bit p.pending_signals i ≡ 1
      → (bit p.signal_mask i ≡ 1) × (i ≢ sigkill) × (i ≢ sigstop)

  -- The task is the one that the pass began with, but for the pending set, which only shrinks.
  abbrev Untouched : Task → ℕ → Task → Type 0
  Untouched (p, m) i t =
      (w : ℕ) × (t ≡ (record p { pending_signals = w }, m))
      × ((j : ℕ) → bit w j ≤ bit p.pending_signals j)

  run_signal-Untouched :
      (p : Proc) (m : Mem)
      → AllBlocked p
      → (i : ℕ) (t : Task) → i < 32
      → Untouched (p, m) i t
      → Untouched (p, m) (i + 1) (run_signal code i t)
  run_signal-Untouched p m blocked i t lt (w, e, below) = elim (bit-cases w i) [
    | inl clear ↦ (
      w,
      ap (run_signal code i) e
          ∙ run_signal_absent code i (record p { pending_signals = w }) m clear,
      below,
    )
    | inr set ↦
        let b = blocked i (omega (arith, below i, bit-le i p.pending_signals)) in
        (
          bit_xor w (sig_bit i),
          ap (run_signal code i) e
              ∙ run_signal_blocked code i (record p { pending_signals = w }) m set b.0 b.1 b.2,
          λ j. omega (arith, bit-clear-le i j w set, below j),
        )
  ]

  -- On the way to user mode, if all 32 bits that are pending are blocked, and SIGKILL and SIGSTOP
  -- are not among them, a pass runs no handler and just forgets the signals.
  pub sig_handler_runner_blocked :
      (p : Proc) (m : Mem)
      → bit_and p.tf.cs 3 ≡ 3
      → p.pending_signals < 2 ^ 32
      → AllBlocked p
      → sig_handler_runner code (p, m) ≡ (record p { pending_signals = 0 }, m)
  sig_handler_runner_blocked p m user small blocked = forget whole
    where
      whole : Untouched (p, m) 32 (sig_handler_runner code (p, m))
      whole =
          unfold sig_handler_runner in
          rw user (
            run_signals_inv code (Untouched (p, m)) (run_signal-Untouched p m blocked) 32 0 32
              (p, m) (omega arith) (omega arith) (p.pending_signals, refl, λ j. omega arith))

      forget :
          Untouched (p, m) 32 (sig_handler_runner code (p, m))
          → sig_handler_runner code (p, m) ≡ (record p { pending_signals = 0 }, m)
      forget (w, e, _) =
          let none_left : w ≡ 0 =
            ap (λ (t : Task). t.0.pending_signals) (sym e)
            ∙ pending-sig_handler_runner p m user small in
          e ∙ ap (λ (n : ℕ). (record p { pending_signals = n }, m)) none_left
