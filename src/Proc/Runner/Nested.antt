-- ===== src/Proc/Runner/Nested.antt =====
-- A whole pass of `sig_handler_runner` with one, and with two, signals for user handlers.
use os.Base.{
  ℕ, zero, suc, ◌+◌, ◌-◌, ◌*◌, ◌^◌, ◌≤◌, ◌<◌, ◌≡◌, ◌≢◌, refl, ap, ◌∙◌, List, length, get_or,
  bit_and, bit_xor, arith,
}
use os.Base.Bits.{bit, bit_and-pow-eq_zero, bit_and-pow_set, bit-clear_ne}
use os.Machine.{Mem, TrapFrame, frame_size, frame_words}
use os.Machine.Frame.{IsFrame, Agree}
use os.Proc.{Proc, sig_bit, sig_dfl, sig_ign, sigkill, sigstop}
use os.Proc.Runner.{
  Task, handle, dispatch, deliver, run_signal, run_signals, sig_handler_runner, sigret,
}
use os.Proc.Runner.Step.{run_signal_absent}
use os.Proc.Runner.Return.{HasRoom, sigret-deliver}

-- The process has a handler of its own for signal `i`, and does not block it.
pub record Handled (i : ℕ) (p : Proc) : Type 0 where
  pub unblocked : bit p.signal_mask i ≡ 0
  pub not_kill : i ≢ sigkill
  pub not_stop : i ≢ sigstop
  pub not_default : get_or p.signal_handlers i 0 ≢ sig_dfl
  pub not_ignored : get_or p.signal_handlers i 0 ≢ sig_ign

-- The process once the bit of signal `i` is taken out.
abbrev taken : ℕ → Proc → Proc
taken i p = record p { pending_signals = bit_xor p.pending_signals (sig_bit i) }

esp-lt : (p : Proc) → IsFrame p.tf → p.tf.esp < 2 ^ 32
unfolding frame_words
esp-lt p v = omega arith

module _ (code : List ℕ) where
  run_signal-Handled :
      (i : ℕ) (p : Proc) (m : Mem)
      → bit p.pending_signals i ≡ 1
      → Handled i p
      → run_signal code i (p, m)
        ≡ deliver code i (record p { pending_signals = bit_xor p.pending_signals (sig_bit i) }, m)
  unfolding run_signal dispatch handle
  run_signal-Handled i p m set h = ground (
    arith,
    bit_and-pow-eq_zero i p.pending_signals,
    bit_and-pow_set i p.pending_signals set,
    bit_and-pow-eq_zero i p.signal_mask,
  )

  run_signals_absent :
      (n i : ℕ) (p : Proc) (m : Mem)
      → ((j : ℕ) → i ≤ j → j < i + n → bit p.pending_signals j ≡ 0)
      → run_signals code n i (p, m) ≡ (p, m)
  unfolding run_signals
  run_signals_absent zero i p m h = refl
  run_signals_absent (suc n) i p m h =
      ap (run_signals code n (i + 1))
        (run_signal_absent code i p m (h i (omega arith) (omega arith)))
      ∙ run_signals_absent n (i + 1) p m (λ j lo hi. h j (omega arith) (omega arith))

  -- `a` rounds, and the `b` that are left of `n`.
  run_signals_split :
      (a b n i k : ℕ) (t : Task)
      → a + b ≡ n
      → i + a ≡ k
      → run_signals code n i t ≡ run_signals code b k (run_signals code a i t)
  unfolding run_signals
  run_signals_split zero b n i k t e f =
      let e' : b ≡ n = omega arith in let f' : i ≡ k = omega arith in cc
  run_signals_split (suc a) b zero i k t e f = absurd (omega arith)
  run_signals_split (suc a) b (suc n) i k t e f =
      run_signals_split a b n (i + 1) k (run_signal code i t) (omega arith) (omega arith)

  -- If signal `i` is the first that is pending, the loop comes to its round.
  run_signals_first :
      (i n k lo : ℕ) (p : Proc) (m : Mem)
      → lo ≤ i
      → i + k + 1 ≡ lo + n
      → ((j : ℕ) → lo ≤ j → j < i → bit p.pending_signals j ≡ 0)
      → bit p.pending_signals i ≡ 1
      → Handled i p
      → run_signals code n lo (p, m) ≡ run_signals code k (i + 1) (deliver code i (taken i p, m))
  run_signals_first i n k lo p m ge e none_before set h =
      run_signals_split (i - lo) (suc k) n lo i (p, m) (omega arith) (omega arith)
      ∙ ap (run_signals code (suc k) i)
          (run_signals_absent (i - lo) lo p m (λ j a b. none_before j (omega arith) (omega arith)))
      ∙ (unfold run_signals in ap (run_signals code k (i + 1)) (run_signal-Handled i p m set h))

  pending-deliver :
      (i : ℕ) (p : Proc) (m : Mem) → (deliver code i (p, m)).0.pending_signals ≡ p.pending_signals
  unfolding deliver
  pending-deliver i p m = refl

  -- A pass with exactly one signal pending, for which the process has a handler.
  sig_handler_runner_single :
      (i : ℕ) (p : Proc) (m : Mem)
      → i < 32
      → bit_and p.tf.cs 3 ≡ 3
      → ((j : ℕ) → j < 32 → j ≢ i → bit p.pending_signals j ≡ 0)
      → bit p.pending_signals i ≡ 1
      → Handled i p
      → sig_handler_runner code (p, m) ≡ deliver code i (taken i p, m)
  unfolding sig_handler_runner
  sig_handler_runner_single i p m lt user others set h = rw user (
      run_signals_first i 32 (31 - i) 0 p m (omega arith) (omega arith)
        (λ j a b. others j (omega arith) (λ e. omega arith)) set h
      ∙ run_signals_absent (31 - i) (i + 1) (deliver code i (taken i p, m)).0 _ λ j a b.
        ap (λ (w : ℕ). bit w j) (pending-deliver i (taken i p) m)
        ∙ bit-clear_ne i j p.pending_signals (λ e. omega arith)
        ∙ others j (omega arith) (λ e. omega arith))

  -- A pass on the way to user mode with one pending signal, below 32, not blocked, not SIGKILL or
  -- SIGSTOP, and with a user handler; the registers are 32-bit words and the user stack has room.
  -- When the handler returns through `sigret`, the interrupted frame is back, if the process left
  -- the saved frame and the kernel's pointer to it as they were.
  pub sigret-sig_handler_runner :
      (i : ℕ) (p q : Proc) (m n : Mem)
      → i < 32
      → bit_and p.tf.cs 3 ≡ 3
      → ((j : ℕ) → j < 32 → j ≢ i → bit p.pending_signals j ≡ 0)
      → bit p.pending_signals i ≡ 1
      → Handled i p
      → IsFrame p.tf
      → HasRoom code p
      → q.user_trap_fram_backup ≡ (sig_handler_runner code (p, m)).0.user_trap_fram_backup
      → Agree (sig_handler_runner code (p, m)).1 n q.user_trap_fram_backup frame_size
      → (sigret (q, n)).0.tf ≡ p.tf
  sigret-sig_handler_runner i p q m n lt user others set h v room e same =
      let single = sig_handler_runner_single i p m lt user others set h in
      sigret-deliver code i (taken i p) m q n v room
        (e ∙ ap (λ (t : Task). t.0.user_trap_fram_backup) single)
        (λ x lo hi. same x lo hi ∙ ap (λ (t : Task). t.1 x) single)

  -- What `deliver` leaves for a second handler.
  deliver-Handled :
      (i j : ℕ) (p : Proc) (m : Mem) → Handled j p → Handled j (deliver code i (p, m)).0
  unfolding deliver
  deliver-Handled i j p m h = record {
    unblocked = h.unblocked;
    not_kill = h.not_kill;
    not_stop = h.not_stop;
    not_default = h.not_default;
    not_ignored = h.not_ignored;
  }

  deliver-HasRoom :
      (i : ℕ) (p : Proc) (m : Mem)
      → 2 * (frame_size + length code + 8) ≤ p.tf.esp
      → p.tf.esp < 2 ^ 32
      → HasRoom code (deliver code i (p, m)).0
  unfolding deliver
  deliver-HasRoom i p m room lt = omega arith

  deliver-IsFrame :
      (i : ℕ) (p : Proc) (m : Mem)
      → IsFrame p.tf
      → get_or p.signal_handlers i 0 < 2 ^ 32
      → IsFrame (deliver code i (p, m)).0.tf
  unfolding deliver frame_words
  deliver-IsFrame i p m v w = omega arith

  eip-deliver :
      (i : ℕ) (p : Proc) (m : Mem) → (deliver code i (p, m)).0.tf.eip ≡ get_or p.signal_handlers i 0
  unfolding deliver
  eip-deliver i p m = refl

  esp-deliver :
      (i : ℕ) (p : Proc) (m : Mem)
      → 2 * (frame_size + length code + 8) ≤ p.tf.esp
      → p.tf.esp < 2 ^ 32
      → (deliver code i (p, m)).0.tf.esp < p.tf.esp
  unfolding deliver
  esp-deliver i p m room lt = omega arith

  bit-pending-deliver :
      (i k : ℕ) (p : Proc) (m : Mem)
      → i ≢ k
      → bit (deliver code i (taken i p, m)).0.pending_signals k ≡ bit p.pending_signals k
  bit-pending-deliver i k p m ne =
      ap (λ (w : ℕ). bit w k) (pending-deliver i (taken i p) m)
      ∙ bit-clear_ne i k p.pending_signals ne

  -- A pass with exactly two signals pending, both with handlers.
  sig_handler_runner_two :
      (i j : ℕ) (p : Proc) (m : Mem)
      → i < j
      → j < 32
      → bit_and p.tf.cs 3 ≡ 3
      → ((k : ℕ) → k < 32 → k ≢ i → k ≢ j → bit p.pending_signals k ≡ 0)
      → bit p.pending_signals i ≡ 1
      → bit p.pending_signals j ≡ 1
      → Handled i p
      → Handled j p
      → let (p', m') = deliver code i (taken i p, m) in
        sig_handler_runner code (p, m) ≡ deliver code j (taken j p', m')
  unfolding sig_handler_runner
  sig_handler_runner_two i j p m ij lt user others set_i set_j hi hj = rw user (
      run_signals_first i 32 (31 - i) 0 p m (omega arith) (omega arith)
        (λ k a b. others k (omega arith) (λ e. omega arith) (λ e. omega arith)) set_i hi
      ∙ run_signals_first j (31 - i) (31 - j) (i + 1) d.0 d.1 (omega arith) (omega arith)
          (λ k a b.
            bit-pending-deliver i k p m (λ e. omega arith)
            ∙ others k (omega arith) (λ e. omega arith) (λ e. omega arith))
          (bit-pending-deliver i j p m (λ e. omega arith) ∙ set_j)
          (deliver-Handled i j (taken i p) m (record {
            unblocked = hj.unblocked;
            not_kill = hj.not_kill;
            not_stop = hj.not_stop;
            not_default = hj.not_default;
            not_ignored = hj.not_ignored;
          }))
      ∙ run_signals_absent (31 - j) (j + 1) (deliver code j (taken j d.0, d.1)).0 _ λ k a b.
        bit-pending-deliver j k d.0 d.1 (λ e. omega arith)
        ∙ bit-pending-deliver i k p m (λ e. omega arith)
        ∙ others k (omega arith) (λ e. omega arith) (λ e. omega arith))
    where
      d : Task
      d = deliver code i (taken i p, m)

  -- A pass on the way to user mode with two pending signals, both with a user handler and not
  -- blocked, on a stack with room for both. From any state that has the pointer to the saved frame
  -- and the saved bytes as the pass left them, `sigret` leads to the handler of the lower signal,
  -- on a stack below the interrupted one: not to the interrupted frame.
  pub sigret-sig_handler_runner_two :
      (i j : ℕ) (p q : Proc) (m n : Mem)
      → i < j
      → j < 32
      → bit_and p.tf.cs 3 ≡ 3
      → ((k : ℕ) → k < 32 → k ≢ i → k ≢ j → bit p.pending_signals k ≡ 0)
      → bit p.pending_signals i ≡ 1
      → bit p.pending_signals j ≡ 1
      → Handled i p
      → Handled j p
      → IsFrame p.tf
      → get_or p.signal_handlers i 0 < 2 ^ 32
      → 2 * (frame_size + length code + 8) ≤ p.tf.esp
      → q.user_trap_fram_backup ≡ (sig_handler_runner code (p, m)).0.user_trap_fram_backup
      → Agree (sig_handler_runner code (p, m)).1 n q.user_trap_fram_backup frame_size
      → let tf = (sigret (q, n)).0.tf in
        (tf.eip ≡ get_or p.signal_handlers i 0) × (tf.esp < p.tf.esp) × (tf ≢ p.tf)
  sigret-sig_handler_runner_two i j p q m n ij lt user others set_i set_j hi hj v w room e same = (
    ap (λ (f : TrapFrame). f.eip) first ∙ eip-deliver i (taken i p) m,
    below,
    λ back. omega (arith, below, ap (λ (f : TrapFrame). f.esp) back),
  )
    where
      d : Task
      d = deliver code i (taken i p, m)

      two : sig_handler_runner code (p, m) ≡ deliver code j (taken j d.0, d.1)
      two = sig_handler_runner_two i j p m ij lt user others set_i set_j hi hj

      first : (sigret (q, n)).0.tf ≡ d.0.tf
      first =
          (sigret-deliver code j (taken j d.0) d.1 q n (deliver-IsFrame i (taken i p) m v w)
            (deliver-HasRoom i (taken i p) m room (esp-lt p v))
            (e ∙ ap (λ (t : Task). t.0.user_trap_fram_backup) two)
            (λ x lo hi. same x lo hi ∙ ap (λ (t : Task). t.1 x) two))

      below : (sigret (q, n)).0.tf.esp < p.tf.esp
      below = omega (
        arith,
        ap (λ (f : TrapFrame). f.esp) first,
        esp-deliver i (taken i p) m room (esp-lt p v),
      )
