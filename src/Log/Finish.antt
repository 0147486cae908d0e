-- ===== src/Log/Finish.antt =====
-- log.c: a commit and a recovery end if the machine makes enough writes, and what they leave then.
use os.Base.{
  ℕ, ◌+◌, ◌*◌, ◌-◌, ◌≤◌, ◌<◌, ◌≡◌, refl, ap, ◌∙◌, inl, inr, false, List, [], ◌∷◌, ◌==◌, length,
  arith, Bool-cases, ltb,
}
use os.Log.{
  Disk, LogState, Run, running, crashed, ◌>>=◌, update, head_blocks, bwrite, copy_block, write_log,
  install_trans, write_head, clear_head, read_head, recover_from_log, commit, reboot,
}
use os.Log.Runs.{Ends, Ends-bind, Ends-map, Ends-running}
use os.Log.Install.{target, Clean}
use os.Log.Commit.{AreHome, commit-Ends}

-- The run ends, with `r` writes left.
abbrev Finishes : ℕ → LogState → Run → Type 0
Finishes r s m = Ends (λ d. ⊥) (λ t. (r ≤ t.writes_left) × (t.lh ≡ s.lh)) m

run_terminates : (m : Run) → Ends (λ d. ⊥) (λ t. Unit {0}) m → (t : LogState) × (m ≡ running t)
run_terminates (running t) h = (t, refl)
run_terminates (crashed d) h = absurd h

bwrite-Finishes :
    (r b : ℕ) (s : LogState) (f : LogState → Run)
    → 0 < s.writes_left
    → Finishes r s
        (f (record s { disk = update s.disk b (s.mem b); writes_left = s.writes_left - 1 }))
    → Finishes r s (bwrite b s >>= f)
unfolding bwrite
bwrite-Finishes r b s f enough h =
    let some_left : (s.writes_left == 0) ≡ false = ground arith in rw some_left h

module _ (start : ℕ) where
  write_log-Finishes :
      (r tail : ℕ) (bs : List ℕ) (s : LogState)
      → length bs + r ≤ s.writes_left
      → Finishes r s (write_log start tail bs s)
  unfolding write_log
  write_log-Finishes r tail [] s h = (omega arith, refl)
  write_log-Finishes r tail (b ∷ bs) s h =
      bwrite-Finishes r (start + tail + 1) (copy_block (start + tail + 1) b s) _ (omega arith)
        (write_log-Finishes r (tail + 1) bs _ (omega arith))

  install_trans-Finishes :
      (r tail : ℕ) (bs : List ℕ) (s : LogState)
      → length bs + r ≤ s.writes_left
      → Finishes r s (install_trans start tail bs s)
  unfolding install_trans
  install_trans-Finishes r tail [] s h = (omega arith, refl)
  install_trans-Finishes r tail (b ∷ bs) s h =
      bwrite-Finishes r b (copy_block b (start + tail + 1) s) _ (omega arith)
        (install_trans-Finishes r (tail + 1) bs _ (omega arith))

  write_head-Finishes :
      (r : ℕ) (s : LogState) → r + 1 ≤ s.writes_left → Finishes r s (write_head start s)
  unfolding write_head bwrite
  write_head-Finishes r s h =
      let some_left : (s.writes_left == 0) ≡ false = ground arith in
      rw some_left (omega arith, refl)

  clear_head_terminates :
      (s : LogState) → 1 ≤ s.writes_left → Ends (λ d. ⊥) (λ t. Unit {0}) (clear_head start s)
  unfolding clear_head write_head bwrite
  clear_head_terminates s h =
      let some_left : (s.writes_left == 0) ≡ false = ground arith in rw some_left tt

  install_terminates :
      (s : LogState)
      → length s.lh + 1 ≤ s.writes_left
      → Ends (λ d. ⊥) (λ t. Unit {0}) (install_trans start 0 s.lh s >>= clear_head start)
  install_terminates s h =
      Ends-bind (λ d. ⊥) (λ t. (1 ≤ t.writes_left) × (t.lh ≡ s.lh)) (λ t. Unit {0})
        (install_trans start 0 s.lh s) (clear_head start)
        (install_trans-Finishes 1 0 s.lh s (omega arith)) (λ t k. clear_head_terminates t k.0)

  -- Recovery ends once it can make a write for each block that the header lists, and one more.
  recover_from_log_terminates :
      (d : Disk) (k : ℕ)
      → length (head_blocks (d start)) + 1 ≤ k
      → Ends (λ d'. ⊥) (λ t. Unit {0}) (recover_from_log start (reboot d k))
  unfolding recover_from_log read_head
  recover_from_log_terminates d k h = install_terminates _ h

  logs_terminates :
      (s : LogState)
      → 2 * length s.lh + 2 ≤ s.writes_left
      → Finishes (length s.lh + 1) s (write_log start 0 s.lh s >>= write_head start)
  logs_terminates s h =
      Ends-bind (λ d. ⊥) (λ u. (length s.lh + 2 ≤ u.writes_left) × (u.lh ≡ s.lh))
        (λ u. (length s.lh + 1 ≤ u.writes_left) × (u.lh ≡ s.lh)) (write_log start 0 s.lh s)
        (write_head start) (write_log-Finishes (length s.lh + 2) 0 s.lh s (omega arith))
        (λ u k.
          Ends-map (λ d. ⊥) (λ t. (length s.lh + 1 ≤ t.writes_left) × (t.lh ≡ u.lh))
            (λ t. (length s.lh + 1 ≤ t.writes_left) × (t.lh ≡ s.lh)) (write_head start u)
            (λ t q. (q.0, q.1 ∙ k.1))
            (write_head-Finishes (length s.lh + 1) u (omega (arith, k.0))))

  commit_terminates :
      (s : LogState)
      → 2 * length s.lh + 2 ≤ s.writes_left
      → Ends (λ d. ⊥) (λ t. Unit {0}) (commit start s)
  unfolding commit
  commit_terminates s h = elim (Bool-cases (ltb 0 (length s.lh))) [
    | inr idle ↦ rw idle tt
    | inl busy ↦ rw busy (
        Ends-bind (λ d. ⊥) (λ t. 1 ≤ t.writes_left) (λ t. Unit {0})
          (write_log start 0 s.lh s >>= write_head start >>= (λ t. install_trans start 0 t.lh t))
          (clear_head start)
          (Ends-bind (λ d. ⊥) (λ u. (length s.lh + 1 ≤ u.writes_left) × (u.lh ≡ s.lh))
            (λ t. 1 ≤ t.writes_left) (write_log start 0 s.lh s >>= write_head start)
            (λ t. install_trans start 0 t.lh t) (logs_terminates s h)
            (λ u k.
              let same : length u.lh ≡ length s.lh = ap length k.1 in
              Ends-map (λ d. ⊥) (λ t. (1 ≤ t.writes_left) × (t.lh ≡ u.lh)) (λ t. 1 ≤ t.writes_left)
                (install_trans start 0 u.lh u) (λ t q. q.0)
                (install_trans-Finishes 1 0 u.lh u (omega (arith, k.0, same)))))
          (λ t k. clear_head_terminates t k))
  ]

-- The log is empty and the transaction's blocks are home blocks, outside the part of the log in
-- use. With two writes for each block, and two more, a commit ends. Then every home block is as the
-- transaction leaves it, and the log is empty again.
pub commit_completes :
    (start : ℕ) (s : LogState)
    → head_blocks (s.disk start) ≡ []
    → AreHome start s.disk s.mem s.lh s.lh
    → 2 * length s.lh + 2 ≤ s.writes_left
    → (t : LogState) × (commit start s ≡ running t)
      × Clean start s.disk s.mem s.lh (target start s.disk s.mem s.lh) t.disk
commit_completes start s empty homes enough =
    let (t, e) = run_terminates (commit start s) (commit_terminates start s enough) in
    (
      t,
      e,
      Ends-running _ _ _ t e
          (commit-Ends start s.disk s.mem s.lh s refl homes (empty, λ x h. refl) (λ x h. refl)),
    )

-- Whatever blocks the header on the disk lists, recovery ends if it can make a write for each of
-- them and one more.
recover_completes :
    (start : ℕ) (d : Disk) (k : ℕ)
    → length (head_blocks (d start)) + 1 ≤ k
    → (t : LogState) × (recover_from_log start (reboot d k) ≡ running t)
recover_completes start d k enough =
    run_terminates (recover_from_log start (reboot d k))
      (recover_from_log_terminates start d k enough)
