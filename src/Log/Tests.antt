-- ===== src/Log/Tests.antt =====
-- A transaction of two blocks that a crash cuts off after the header was written.
use os.Base.{ℕ, ◌+◌, ◌≡◌, refl, [], ◌∷◌, arith}
use os.Log.{
  Disk, LogState, running, crashed, bwrite, head_block, head_blocks, write_log, install_trans,
  write_head, clear_head, read_head, recover_from_log, commit, reboot,
}
use os.Log.Install.{Clean, target}
use os.Log.Commit.{AreHome}
use os.Log.Recovery.{Reboots, ends, again, IsAtomic, commit-IsAtomic}
use os.Log.Finish.{commit_completes}

-- The log begins at block 2; blocks 9 and 10 change.
abbrev old_disk : Disk
old_disk x = 0 ∷ x ∷ []

abbrev cache : Disk
cache x = 0 ∷ (x + 100) ∷ []

abbrev changed : ℕ → LogState
changed k = record { disk = old_disk; mem = cache; lh = 9 ∷ 10 ∷ []; writes_left = k }

changed-AreHome : (k : ℕ) → AreHome 2 old_disk cache (9 ∷ 10 ∷ []) (9 ∷ 10 ∷ [])
changed-AreHome k = omega arith

abbrev disk_of : (k : ℕ) → Disk
disk_of k = elim (commit 2 (changed k)) [ running s ↦ s.disk | crashed d ↦ d ]

commit_cut : commit 2 (changed 4) ≡ crashed (disk_of 4)
unfolding commit write_log write_head install_trans clear_head bwrite head_block
commit_cut = refl

header_written : head_blocks (disk_of 4 2) ≡ 9 ∷ 10 ∷ []
unfolding commit write_log write_head install_trans clear_head bwrite head_block head_blocks
header_written = refl

-- Recovery is cut off after one write, and then ends.
abbrev second_disk : Disk
second_disk = elim (recover_from_log 2 (reboot (disk_of 4) 1)) [
  | running s ↦ s.disk
  | crashed d ↦ d
]

abbrev recovered : LogState
recovered = elim (recover_from_log 2 (reboot second_disk 9)) [
  | running s ↦ s
  | crashed d ↦ changed 0
]

recovers : Reboots 2 recovered (disk_of 4)
unfolding recover_from_log read_head commit write_log write_head install_trans clear_head bwrite
    head_block head_blocks
recovers = again second_disk 1 refl (ends 9 refl)

recovered_block : recovered.disk 10 ≡ 0 ∷ 110 ∷ []
unfolding recover_from_log read_head commit write_log write_head install_trans clear_head bwrite
    head_block head_blocks
recovered_block = refl

commit-IsAtomic_example : IsAtomic 2 old_disk cache (9 ∷ 10 ∷ []) recovered
unfolding head_blocks
commit-IsAtomic_example =
    commit-IsAtomic 2 (changed 4) recovered (disk_of 4) refl (changed-AreHome 4) commit_cut recovers

commit_completes_example :
    (t : LogState) × (commit 2 (changed 6) ≡ running t)
    × Clean 2 old_disk cache (9 ∷ 10 ∷ []) (target 2 old_disk cache (9 ∷ 10 ∷ [])) t.disk
unfolding head_blocks
commit_completes_example = commit_completes 2 (changed 6) refl (changed-AreHome 6) (omega arith)
