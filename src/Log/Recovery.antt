-- ===== src/Log/Recovery.antt =====
-- log.c: a transaction takes place whole or not at all, however often the machine crashes.
use os.Base.{ℕ, ◌≡◌, refl, ◌⊎◌, inl, inr, List, [], arith, ◌==◌, ==_refl, false}
use os.Log.{
  Disk, LogState, running, crashed, head_blocks, install_trans, clear_head, read_head,
  recover_from_log, commit, reboot, write_head, update, head_block,
}
use os.Log.Runs.{Ends, Ends-crashed, Ends-running, Ends-bwrite, head_blocks-head_block}
use os.Log.Install.{IsHome, target, Clean, Committed}
use os.Log.Commit.{AreHome, Recoverable, install-Ends, commit-Ends}

-- From the disk `d`, recovery is run until it once ends, in a state `s`.
pub data Reboots (start : ℕ) (s : LogState) : Disk → Type 0 where
  ends : {d : Disk} (k : ℕ) → recover_from_log start (reboot d k) ≡ running s → Reboots start s d
  again :
      {d : Disk} (d' : Disk) (k : ℕ)
      → recover_from_log start (reboot d k) ≡ crashed d'
      → Reboots start s d'
      → Reboots start s d

module _ (start : ℕ) (before after : Disk) (blocks : List ℕ) where
  -- All home blocks have their old content, or all their new content.
  abbrev pub IsAtomic : LogState → Type 0
  IsAtomic s =
      ((x : ℕ) → IsHome start before after blocks x → s.disk x ≡ before x)
      ⊎ ((x : ℕ)
          → IsHome start before after blocks x
          → s.disk x ≡ target start before after blocks x)

  clear_head-Clean :
      (content : Disk) (s : LogState)
      → Clean start before after blocks content s.disk
      → Ends
          (Clean start before after blocks content)
          (λ t. Clean start before after blocks content t.disk)
          (clear_head start s)
  unfolding clear_head write_head
  clear_head-Clean content s c =
      let cleared : LogState = record s {
        lh = [];
        mem = update s.mem start (head_block (s.mem start) []);
      } in
      Ends-bwrite (Clean start before after blocks content)
        (λ t. Clean start before after blocks content t.disk) start cleared c
        (
          rw (==_refl start) (head_blocks-head_block (s.mem start) []),
          λ x h. let ne : (x == start) ≡ false = ground arith in rw ne (c.1 x h),
        )

  recover-Clean :
      (content d : Disk) (k : ℕ)
      → Clean start before after blocks content d
      → Ends
          (Clean start before after blocks content)
          (λ t. Clean start before after blocks content t.disk)
          (recover_from_log start (reboot d k))
  unfolding recover_from_log read_head install_trans
  recover-Clean content d k c =
      rw c.0 (clear_head-Clean content (record (reboot d k) { lh = [] }) c)

  recover-Committed :
      (d : Disk) (k : ℕ)
      → AreHome start before after blocks blocks
      → Committed start before after blocks d
      → Ends
          (Committed start before after blocks)
          (λ t. Clean start before after blocks (target start before after blocks) t.disk)
          (recover_from_log start (reboot d k))
  unfolding recover_from_log read_head
  recover-Committed d k homes c = rw c.header (
      install-Ends start before after blocks _ homes (record {
        committed = c;
        cached = c.logged;
        installed = λ x h out. rw out (c.others x h out);
      }))

  -- One crash or end of recovery keeps what the disk can be.
  recover_crashed :
      (d d' : Disk) (k : ℕ)
      → AreHome start before after blocks blocks
      → Recoverable start before after blocks d
      → recover_from_log start (reboot d k) ≡ crashed d'
      → Recoverable start before after blocks d'
  recover_crashed d d' k homes (inl c) e =
      inl (Ends-crashed _ _ _ d' e (recover-Clean before d k c))
  recover_crashed d d' k homes (inr (inl c)) e =
      inr (inl (Ends-crashed _ _ _ d' e (recover-Committed d k homes c)))
  recover_crashed d d' k homes (inr (inr c)) e =
      inr (inr (Ends-crashed _ _ _ d' e (recover-Clean (target start before after blocks) d k c)))

  recover_running :
      (d : Disk) (s : LogState) (k : ℕ)
      → AreHome start before after blocks blocks
      → Recoverable start before after blocks d
      → recover_from_log start (reboot d k) ≡ running s
      → IsAtomic s
  recover_running d s k homes (inl c) e =
      inl ((Ends-running _ _ _ s e (recover-Clean before d k c)).1)
  recover_running d s k homes (inr (inl c)) e =
      inr ((Ends-running _ _ _ s e (recover-Committed d k homes c)).1)
  recover_running d s k homes (inr (inr c)) e =
      inr ((Ends-running _ _ _ s e (recover-Clean (target start before after blocks) d k c)).1)

  pub Reboots-IsAtomic :
      {s : LogState} (d : Disk)
      → AreHome start before after blocks blocks
      → Recoverable start before after blocks d
      → Reboots start s d
      → IsAtomic s
  Reboots-IsAtomic {s} d homes r (ends k e) = recover_running d s k homes r e
  Reboots-IsAtomic d homes r (again d' k e rest) =
      Reboots-IsAtomic d' homes (recover_crashed d d' k homes r e) rest

-- However early a commit is cut off, and however often recovery is cut off after it: once recovery
-- ends, either every home block is as before the transaction, or every one is as the transaction
-- leaves it. Home blocks are those outside the header and the places of the log in use; the log is
-- empty before, and the transaction's blocks are home blocks.
pub commit-IsAtomic :
    (start : ℕ) (s t : LogState) (d : Disk)
    → head_blocks (s.disk start) ≡ []
    → AreHome start s.disk s.mem s.lh s.lh
    → commit start s ≡ crashed d
    → Reboots start t d
    → IsAtomic start s.disk s.mem s.lh t
commit-IsAtomic start s t d empty homes e r =
    Reboots-IsAtomic start s.disk s.mem s.lh d homes
      (Ends-crashed _ _ _ d e
        (commit-Ends start s.disk s.mem s.lh s refl homes (empty, λ x h. refl) (λ x h. refl)))
      r
