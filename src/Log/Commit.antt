-- ===== src/Log/Commit.antt =====
-- log.c: what a commit leaves on the disk, wherever it is cut off.
use os.Base.{
  ℕ, ◌+◌, ◌-◌, ◌≤◌, ◌<◌, ◌≡◌, refl, sym, ◌∙◌, ◌⊎◌, inl, inr, true, false, List, [], ◌∷◌, ◌==◌,
  ==_refl, length, arith, Bool-cases, ltb,
}
use mathlib.Core.Path.{subst}
use os.Log.{
  copy_block, Disk, LogState, Run, ◌>>=◌, update, head_block, write_log, install_trans, write_head,
  clear_head, commit,
}
use os.Log.Runs.{
  Ends, Ends-bind, Ends-bwrite, Ends-weaken, Ends-map, Ends-bwrite_then, head_blocks-head_block,
}
use os.Log.Install.{
  contains, IsHome, target, Clean, Holds, Committed, Listed, Holds-update, Installing,
  install_trans-Ends, clear_head-Ends,
}

module _ (start : ℕ) (before after : Disk) (blocks : List ℕ) where
  -- Every block of the transaction is a home block.
  abbrev pub AreHome : List ℕ → Type 0
  AreHome [] = Unit {0}
  AreHome (b ∷ bs) = IsHome start before after blocks b × AreHome bs

  AreHome-Listed :
      (bs : List ℕ)
      → ((x : ℕ) → contains x bs ≡ true → contains x blocks ≡ true)
      → AreHome bs
      → Listed start before after blocks bs
  AreHome-Listed [] sub h = tt
  AreHome-Listed (b ∷ bs) sub (home, h) =
      (home, sub b (rw (==_refl b) refl), AreHome-Listed bs (λ x e. sub x (ground arith)) h)

  pub blocks-Listed : AreHome blocks → Listed start before after blocks blocks
  blocks-Listed h = AreHome-Listed blocks (λ x e. e) h

  -- Before the header is written: the log's places up to `tail` are filled.
  record Logging (s t : LogState) (tail : ℕ) (bs : List ℕ) : Type 0 where
    pub clean : Clean start before after blocks before t.disk
    pub cache : (x : ℕ) → IsHome start before after blocks x → t.mem x ≡ after x
    pub on_disk : Holds start before after blocks t.disk tail bs
    pub in_cache : Holds start before after blocks t.mem tail bs
    pub list : t.lh ≡ s.lh
    pub kept : (x : ℕ) → x ≤ start + tail → (t.disk x ≡ s.disk x) × (t.mem x ≡ s.mem x)

  -- Block `b` written to the log's place `tail`.
  abbrev placed : ℕ → ℕ → LogState → LogState
  placed tail b s =
      let t : LogState = copy_block (start + tail + 1) b s in
      record t {
        disk = update t.disk (start + tail + 1) (t.mem (start + tail + 1));
        writes_left = t.writes_left - 1;
      }

  placed-Clean :
      (tail b : ℕ) (s : LogState)
      → tail < length blocks
      → Clean start before after blocks before s.disk
      → Clean start before after blocks before (placed tail b s).disk
  placed-Clean tail b s fits (header, same) = (
    let ne : (start == (start + tail + 1)) ≡ false = ground arith in rw ne header,
    λ x h. let ne : (x == (start + tail + 1)) ≡ false = ground arith in rw ne (same x h),
  )

  placed-cache :
      (tail b : ℕ) (s : LogState)
      → tail < length blocks
      → ((x : ℕ) → IsHome start before after blocks x → s.mem x ≡ after x)
      → (x : ℕ) → IsHome start before after blocks x
      → (placed tail b s).mem x ≡ after x
  placed-cache tail b s fits cache x h =
      let ne : (x == (start + tail + 1)) ≡ false = ground arith in rw ne (cache x h)

  placed-kept :
      (tail b x : ℕ) (s : LogState)
      → x ≤ start + tail
      → ((placed tail b s).disk x ≡ s.disk x) × ((placed tail b s).mem x ≡ s.mem x)
  placed-kept tail b x s h =
      let ne : (x == (start + tail + 1)) ≡ false = ground arith in rw ne (refl, refl)

  Logging-placed :
      (tail b : ℕ) (bs : List ℕ) (s t : LogState)
      → s.mem b ≡ after b
      → Logging (placed tail b s) t (tail + 1) bs
      → Logging s t tail (b ∷ bs)
  Logging-placed tail b bs s t new h =
      let at : (t.disk (start + tail + 1) ≡ (placed tail b s).disk (start + tail + 1))
          × (t.mem (start + tail + 1) ≡ (placed tail b s).mem (start + tail + 1)) =
        h.kept (start + tail + 1) (omega arith) in
      let here_mem : (placed tail b s).mem (start + tail + 1) ≡ after b =
        rw (==_refl (start + tail + 1)) new in
      let here_disk : (placed tail b s).disk (start + tail + 1) ≡ after b =
        rw (==_refl (start + tail + 1)) new in
      record {
        clean = h.clean;
        cache = h.cache;
        on_disk = (at.0 ∙ here_disk, h.on_disk);
        in_cache = (at.1 ∙ here_mem, h.in_cache);
        list = h.list;
        kept = λ x le. (
          (h.kept x (omega arith)).0 ∙ (placed-kept tail b x s le).0,
          (h.kept x (omega arith)).1 ∙ (placed-kept tail b x s le).1,
        );
      }

  write_log-Ends :
      (tail : ℕ) (bs : List ℕ) (s : LogState)
      → tail + length bs ≡ length blocks
      → AreHome bs
      → Clean start before after blocks before s.disk
      → ((x : ℕ) → IsHome start before after blocks x → s.mem x ≡ after x)
      → Ends
          (Clean start before after blocks before)
          (λ t. Logging s t tail bs)
          (write_log start tail bs s)
  unfolding write_log
  write_log-Ends tail [] s fits homes clean cache = record {
    clean = clean;
    cache = cache;
    on_disk = tt;
    in_cache = tt;
    list = refl;
    kept = λ x h. (refl, refl);
  }
  write_log-Ends tail (b ∷ bs) s fits (home, homes) clean cache =
      Ends-bwrite_then (Clean start before after blocks before) (λ t. Logging s t tail (b ∷ bs))
        (start + tail + 1) (copy_block (start + tail + 1) b s) (write_log start (tail + 1) bs) clean
        (Ends-map (Clean start before after blocks before)
          (λ t. Logging (placed tail b s) t (tail + 1) bs) (λ t. Logging s t tail (b ∷ bs))
          (write_log start (tail + 1) bs (placed tail b s))
          (λ t h. Logging-placed tail b bs s t (cache b home) h)
          (write_log-Ends (tail + 1) bs (placed tail b s) (omega arith) homes
            (placed-Clean tail b s (ground arith) clean)
            (placed-cache tail b s (ground arith) cache)))

  write_head-Ends :
      (s t : LogState)
      → s.lh ≡ blocks
      → Logging s t 0 blocks
      → Ends
          (Clean start before after blocks before)
          (λ u. (u.lh ≡ blocks) × Installing start before after blocks 0 blocks u)
          (write_head start t)
  unfolding write_head
  write_head-Ends s t list h =
      let full : LogState = record t { mem = update t.mem start (head_block (t.mem start) t.lh) } in
      Ends-bwrite (Clean start before after blocks before)
        (λ u. (u.lh ≡ blocks) × Installing start before after blocks 0 blocks u) start full h.clean
        (
          h.list ∙ list,
          record {
            committed = record {
              header =
                  rw (==_refl start) (head_blocks-head_block (t.mem start) t.lh ∙ h.list ∙ list);
              logged =
                  Holds-update start before after blocks t.disk start (full.mem start) 0 blocks
                    (inl (omega arith)) (omega arith) h.on_disk;
              others = λ x home out. unwritten x home;
            };
            cached =
                Holds-update start before after blocks t.mem start (head_block (t.mem start) t.lh) 0
                  blocks (inl (omega arith)) (omega arith) h.in_cache;
            installed = λ x home out. rw out (unwritten x home);
          },
        )
    where
      unwritten :
          (x : ℕ)
          → IsHome start before after blocks x
          → update t.disk start (update t.mem start (head_block (t.mem start) t.lh) start) x
            ≡ before x
      unwritten x home = let ne : (x == start) ≡ false = ground arith in rw ne (h.clean.1 x home)

  -- What the disk of a crash can be: nothing changed, or committed, or all installed.
  abbrev pub Recoverable : Disk → Type 0
  Recoverable d =
      Clean start before after blocks before d
      ⊎ Committed start before after blocks d
      ⊎ Clean start before after blocks (target start before after blocks) d

  pub install-Ends :
      (s : LogState)
      → AreHome blocks
      → Installing start before after blocks 0 blocks s
      → Ends
          (Committed start before after blocks)
          (λ t. Clean start before after blocks (target start before after blocks) t.disk)
          (install_trans start 0 blocks s >>= clear_head start)
  install-Ends s homes inv =
      Ends-bind (Committed start before after blocks)
        (Installing start before after blocks (length blocks) [])
        (λ t. Clean start before after blocks (target start before after blocks) t.disk)
        (install_trans start 0 blocks s) (clear_head start)
        (install_trans-Ends start before after blocks 0 blocks s (omega arith) (blocks-Listed homes)
          inv)
        (clear_head-Ends start before after blocks)

  Committed-later :
      (Q : LogState → Type 0) (m : Run)
      → Ends (Committed start before after blocks) Q m
      → Ends Recoverable Q m
  Committed-later Q m h =
      Ends-weaken (Committed start before after blocks) Recoverable Q m (λ d c. inr (inl c)) h

  logs-Ends :
      (s : LogState)
      → s.lh ≡ blocks
      → AreHome blocks
      → Clean start before after blocks before s.disk
      → ((x : ℕ) → IsHome start before after blocks x → s.mem x ≡ after x)
      → Ends Recoverable
          (λ u. (u.lh ≡ blocks) × Installing start before after blocks 0 blocks u)
          (write_log start 0 s.lh s >>= write_head start)
  logs-Ends s list homes clean cache =
      Ends-weaken (Clean start before after blocks before) Recoverable
        (λ u. (u.lh ≡ blocks) × Installing start before after blocks 0 blocks u)
        (write_log start 0 s.lh s >>= write_head start) (λ d c. inl c)
        (Ends-bind (Clean start before after blocks before) (λ t. Logging s t 0 blocks)
          (λ u. (u.lh ≡ blocks) × Installing start before after blocks 0 blocks u)
          (write_log start 0 s.lh s) (write_head start)
          (subst
            (λ bs.
              Ends (Clean start before after blocks before) (λ t. Logging s t 0 blocks)
                (write_log start 0 bs s))
            (sym list) (write_log-Ends 0 blocks s (omega arith) homes clean cache))
          (λ t h. write_head-Ends s t list h))

  none_listed : (bs : List ℕ) (x : ℕ) → ltb 0 (length bs) ≡ false → contains x bs ≡ false
  none_listed [] x h = refl
  none_listed (b ∷ bs) x h = absurd (ground arith)

  pub commit-Ends :
      (s : LogState)
      → s.lh ≡ blocks
      → AreHome blocks
      → Clean start before after blocks before s.disk
      → ((x : ℕ) → IsHome start before after blocks x → s.mem x ≡ after x)
      → Ends Recoverable
          (λ t. Clean start before after blocks (target start before after blocks) t.disk)
          (commit start s)
  unfolding commit
  commit-Ends s list homes clean cache = elim (Bool-cases (ltb 0 (length s.lh))) [
    | inr idle ↦
        rw idle (clean.0, λ x home. rw (none_listed blocks x (rw list at idle)) (clean.1 x home))
    | inl busy ↦ rw busy (
        Ends-bind Recoverable (Installing start before after blocks (length blocks) [])
          (λ t. Clean start before after blocks (target start before after blocks) t.disk)
          (write_log start 0 s.lh s >>= write_head start >>= (λ t. install_trans start 0 t.lh t))
          (clear_head start)
          (Ends-bind Recoverable
            (λ u. (u.lh ≡ blocks) × Installing start before after blocks 0 blocks u)
            (Installing start before after blocks (length blocks) [])
            (write_log start 0 s.lh s >>= write_head start) (λ t. install_trans start 0 t.lh t)
            (logs-Ends s list homes clean cache)
            (λ u h.
              subst
                (λ bs.
                  Ends Recoverable (Installing start before after blocks (length blocks) [])
                    (install_trans start 0 bs u))
                (sym h.0)
                (Committed-later _ (install_trans start 0 blocks u) (
                  install_trans-Ends start before after blocks 0 blocks u (omega arith)
                    (blocks-Listed homes) h.1))))
          (λ u h.
            Committed-later _ (clear_head start u) (clear_head-Ends start before after blocks u h)))
  ]
