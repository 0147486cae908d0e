-- ===== src/Log/Install.antt =====
-- log.c: what is on the disk before, during and after the installation of a transaction.
use os.Base.{
  ℕ, ◌+◌, ◌-◌, ◌≤◌, ◌<◌, ◌≡◌, refl, ap, ◌⊎◌, inl, inr, Bool, true, false, ◌||◌, List, [], ◌∷◌, ◌==◌,
  ==_refl, if◌then◌else◌, length, arith, Bool-cases,
}
use os.Log.{
  copy_block, Block, Disk, LogState, update, bwrite, head_block, head_blocks, install_trans,
  write_head, clear_head,
}
use os.Log.Runs.{Ends, Ends-bind, Ends-bwrite, head_blocks-head_block}

abbrev pub contains : ℕ → List ℕ → Bool
contains x [] = false
contains x (b ∷ bs) = x == b || contains x bs

-- The blocks `blocks` are to change from their content in `before` to that in `after`.
module _ (start : ℕ) (before after : Disk) (blocks : List ℕ) where
  -- Neither the header nor a place of the log that the transaction uses.
  abbrev pub IsHome : ℕ → Type 0
  IsHome x = (x < start) ⊎ (start + length blocks < x)

  abbrev pub target : Disk
  target x = if contains x blocks then after x else before x

  -- The log is empty, and the home blocks are as in `content`.
  abbrev pub Clean : Disk → Disk → Type 0
  Clean content d = (head_blocks (d start) ≡ []) × ((x : ℕ) → IsHome x → d x ≡ content x)

  -- The log places from `tail` on hold the new content of the blocks `bs`.
  abbrev pub Holds : Disk → ℕ → List ℕ → Type 0
  Holds d tail [] = Unit {0}
  Holds d tail (b ∷ bs) = (d (start + tail + 1) ≡ after b) × Holds d (tail + 1) bs

  -- The transaction is committed: the header lists its blocks, and the log holds them.
  pub record Committed (d : Disk) : Type 0 where
    pub header : head_blocks (d start) ≡ blocks
    pub logged : Holds d 0 blocks
    pub others : (x : ℕ) → IsHome x → contains x blocks ≡ false → d x ≡ before x

  -- The blocks `bs` are home blocks of the transaction.
  abbrev pub Listed : List ℕ → Type 0
  Listed [] = Unit {0}
  Listed (b ∷ bs) = IsHome b × (contains b blocks ≡ true) × Listed bs

  -- A write elsewhere leaves the log's places.
  pub Holds-update :
      (d : Disk) (b : ℕ) (v : Block) (tail : ℕ) (bs : List ℕ)
      → (b ≤ start + tail) ⊎ (start + length blocks < b)
      → tail + length bs ≤ length blocks
      → Holds d tail bs
      → Holds (update d b v) tail bs
  Holds-update d b v tail [] off fits h = tt
  Holds-update d b v tail (c ∷ bs) off fits h = (
    let ne : ((start + tail + 1) == b) ≡ false = ground arith in rw ne h.0,
    Holds-update d b v (tail + 1) bs (ground arith) (omega arith) h.1,
  )

  -- While the blocks `bs` are still to be installed, from place `tail` on.
  pub record Installing (tail : ℕ) (bs : List ℕ) (s : LogState) : Type 0 where
    pub committed : Committed s.disk
    pub cached : Holds s.mem tail bs
    pub installed : (x : ℕ) → IsHome x → contains x bs ≡ false → s.disk x ≡ target x

  Committed-update :
      (d : Disk) (b : ℕ) (v : Block)
      → IsHome b
      → contains b blocks ≡ true
      → Committed d
      → Committed (update d b v)
  Committed-update d b v home mine c = record {
    header = (let ne : (start == b) ≡ false = ground arith in rw ne c.header);
    logged = Holds-update d b v 0 blocks (ground arith) (omega arith) c.logged;
    others = λ x h out. elim (Bool-cases (x == b)) [
      | inl same ↦
          let e : x ≡ b = ground arith in absurd (ground (arith, ap (λ y. contains y blocks) e))
      | inr ne ↦ rw ne (c.others x h out)
    ];
  }

  -- One round of the loop.
  installs-Installing :
      (tail b : ℕ) (bs : List ℕ) (s : LogState)
      → tail + length (b ∷ bs) ≡ length blocks
      → IsHome b
      → contains b blocks ≡ true
      → Installing tail (b ∷ bs) s
      → let t = copy_block b (start + tail + 1) s in
        Installing
          (tail + 1)
          bs
          (record t { disk = update t.disk b (t.mem b); writes_left = t.writes_left - 1 })
  installs-Installing tail b bs s fits home mine inv = record {
    committed = Committed-update s.disk b _ home mine inv.committed;
    cached =
        Holds-update s.mem b (s.mem (start + tail + 1)) (tail + 1) bs (ground arith) (omega arith)
          inv.cached.1;
    installed = λ x h out. elim (Bool-cases (x == b)) [
      | inl same ↦
          let e : x ≡ b = ground arith in
          rw (same, ==_refl b, ap (λ y. contains y blocks) e, mine, ap after e) inv.cached.0
      | inr ne ↦ rw ne (inv.installed x h (rw (ne, out)))
    ];
  }

  pub install_trans-Ends :
      (tail : ℕ) (bs : List ℕ) (s : LogState)
      → tail + length bs ≡ length blocks
      → Listed bs
      → Installing tail bs s
      → Ends Committed (Installing (length blocks) []) (install_trans start tail bs s)
  unfolding install_trans
  install_trans-Ends tail [] s fits l inv = record {
    committed = inv.committed;
    cached = tt;
    installed = inv.installed;
  }
  install_trans-Ends tail (b ∷ bs) s fits (home, mine, l) inv =
      Ends-bind Committed (Installing (tail + 1) bs) (Installing (length blocks) [])
        (bwrite b (copy_block b (start + tail + 1) s)) (install_trans start (tail + 1) bs)
        (Ends-bwrite Committed (Installing (tail + 1) bs) b (copy_block b (start + tail + 1) s)
          inv.committed (installs-Installing tail b bs s fits home mine inv))
        (λ t h. install_trans-Ends (tail + 1) bs t (omega arith) l h)

  -- Clearing the header ends the transaction.
  pub clear_head-Ends :
      (s : LogState)
      → Installing (length blocks) [] s
      → Ends Committed (λ t. Clean target t.disk) (clear_head start s)
  unfolding clear_head write_head
  clear_head-Ends s inv =
      let cleared : LogState = record s { lh = [] } in
      Ends-bwrite Committed (λ t. Clean target t.disk) start
        (record cleared { mem = update s.mem start (head_block (s.mem start) []) }) inv.committed
        (
          rw (==_refl start) (head_blocks-head_block (s.mem start) []),
          λ x h. let ne : (x == start) ≡ false = ground arith in rw ne (inv.installed x h refl),
        )
