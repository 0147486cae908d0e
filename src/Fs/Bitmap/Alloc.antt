-- ===== src/Fs/Bitmap/Alloc.antt =====
-- fs.c: which block `balloc` finds, and what `balloc` and `bfree` do to the bitmap.
use os.Base.{
  ℕ, zero, suc, ◌+◌, ◌-◌, ◌*◌, ◌/◌, ◌%◌, ◌^◌, ◌≤◌, ◌<◌, ◌≡◌, ◌≢◌, refl, sym, ap, ◌∙◌, ◌⊎◌, inl, inr,
  Bool, true, false, none, some, ◌==◌, ==_iff, ==_refl, ltb, bit_and, bit_or, bit_xor, arith,
  Bool-cases,
}
use os.Base.Bits.{
  bit, bit-le, bit-bit_and, bit-bit_xor, bit-pow_self, bit-pow_ne, bit-set_self, bit-set_ne,
  bit_and-pow-eq_zero,
}
use os.Base.Result.{ok, panic}
use os.Machine.{Mem, store8}
use os.Fs.{SuperBlock, Fs, bpb, put_block}
use os.Fs.Bitmap.{bblock, mask, is_free, scan_bits, scan_map, zero_block, balloc, bfree}

bit-255 : (j : ℕ) → j < 8 → bit 255 j ≡ 1
bit-255 zero h = refl
bit-255 (suc zero) h = refl
bit-255 (suc (suc zero)) h = refl
bit-255 (suc (suc (suc zero))) h = refl
bit-255 (suc (suc (suc (suc zero)))) h = refl
bit-255 (suc (suc (suc (suc (suc zero))))) h = refl
bit-255 (suc (suc (suc (suc (suc (suc zero)))))) h = refl
bit-255 (suc (suc (suc (suc (suc (suc (suc zero))))))) h = refl
bit-255 (suc (suc (suc (suc (suc (suc (suc (suc j)))))))) h = absurd (omega arith)

-- `x & ~(1 << k)` on a byte clears the bit `k` and no other.
bit-mask_self : (x k : ℕ) → k < 8 → bit (bit_and x (bit_xor 255 (2 ^ k))) k ≡ 0
bit-mask_self x k h =
    rw
      (
        bit-bit_and k x (bit_xor 255 (2 ^ k)),
        bit-bit_xor k 255 (2 ^ k),
        bit-255 k h,
        bit-pow_self k,
      )
      (omega arith)

bit-mask_ne : (x k j : ℕ) → j < 8 → k ≢ j → bit (bit_and x (bit_xor 255 (2 ^ k))) j ≡ bit x j
bit-mask_ne x k j h ne =
    rw
      (
        bit-bit_and j x (bit_xor 255 (2 ^ k)),
        bit-bit_xor j 255 (2 ^ k),
        bit-255 j h,
        bit-pow_ne k j ne,
      )
      (omega (arith, bit-le j x))

-- The bitmap byte of place `bi`, with the bit set or cleared.
abbrev pub set_place : Mem → ℕ → Mem
set_place blk bi = store8 blk (bi / 8) (bit_or (blk (bi / 8)) (mask bi))

abbrev pub clear_place : Mem → ℕ → Mem
clear_place blk bi = store8 blk (bi / 8) (bit_and (blk (bi / 8)) (bit_xor 255 (mask bi)))

is_free-bit : (blk : Mem) (bi : ℕ) → is_free blk bi ≡ (bit (blk (bi / 8)) (bi % 8) == 0)
is_free-bit blk bi = bit_and-pow-eq_zero (bi % 8) (blk (bi / 8))

is_free-set_place : (blk : Mem) (bi : ℕ) → is_free (set_place blk bi) bi ≡ false
is_free-set_place blk bi =
    rw (is_free-bit (set_place blk bi) bi, ==_refl (bi / 8), bit-set_self (bi % 8) (blk (bi / 8)))
      refl

is_free-set_place_ne :
    (blk : Mem) (bi c : ℕ) → bi ≢ c → is_free (set_place blk bi) c ≡ is_free blk c
is_free-set_place_ne blk bi c ne =
    rw (is_free-bit (set_place blk bi) c, is_free-bit blk c)
      (elim (Bool-cases (c / 8 == bi / 8)) [
        | inl same ↦
            let byte : c / 8 ≡ bi / 8 = (==_iff (c / 8) (bi / 8)).0 same in
            rw (same, ← byte, bit-set_ne (bi % 8) (c % 8) (blk (c / 8)) (λ e. omega arith)) refl
        | inr other ↦ rw other refl
      ])

is_free-clear_place : (blk : Mem) (bi : ℕ) → is_free (clear_place blk bi) bi ≡ true
is_free-clear_place blk bi =
    rw
      (
        is_free-bit (clear_place blk bi) bi,
        ==_refl (bi / 8),
        bit-mask_self (blk (bi / 8)) (bi % 8) (omega arith),
      )
      refl

is_free-clear_place_ne :
    (blk : Mem) (bi c : ℕ) → bi ≢ c → is_free (clear_place blk bi) c ≡ is_free blk c
is_free-clear_place_ne blk bi c ne =
    rw (is_free-bit (clear_place blk bi) c, is_free-bit blk c)
      (elim (Bool-cases (c / 8 == bi / 8)) [
        | inl same ↦
            let byte : c / 8 ≡ bi / 8 = (==_iff (c / 8) (bi / 8)).0 same in
            rw
              (
                same,
                ← byte,
                bit-mask_ne (blk (c / 8)) (bi % 8) (c % 8) (omega arith) (λ e. omega arith),
              )
              refl
        | inr other ↦ rw other refl
      ])

module _ (sb : SuperBlock) where
  -- The bit of block `b` is clear.
  abbrev pub block_is_free : (ℕ → Mem) → ℕ → Bool
  block_is_free d b = is_free (d (bblock sb b)) (b % bpb)

  scan_bits_lem :
      (blk : Mem) (b n bi : ℕ)
      → ((k : ℕ) × (scan_bits sb blk b n bi ≡ some k)
          × (bi ≤ k)
          × (k < bi + n)
          × (b + k < sb.size)
          × (is_free blk k ≡ true))
        ⊎ ((scan_bits sb blk b n bi ≡ none)
            × ((k : ℕ) → bi ≤ k → k < bi + n → b + k < sb.size → is_free blk k ≡ false))
  unfolding scan_bits
  scan_bits_lem blk b zero bi = inr (refl, λ k h h'. absurd (omega arith))
  scan_bits_lem blk b (suc n) bi = elim (Bool-cases (ltb (b + bi) sb.size)) [
    | inr past ↦ inr (rw past refl, λ k le lt inside. absurd (ground arith))
    | inl inside ↦ elim (Bool-cases (is_free blk bi)) [
      | inl free ↦ inl (bi, rw (inside, free) refl, omega arith, omega arith, ground arith, free)
      | inr used ↦ elim (scan_bits_lem blk b n (bi + 1)) [
        | inl (k, e, le, lt, small, free) ↦
            inl (k, rw (inside, used) e, omega (arith, le), omega (arith, lt), small, free)
        | inr (e, all) ↦ inr (
          rw (inside, used) e,
          λ k le lt small. elim (Bool-cases (bi == k)) [
            | inl same ↦ ground (arith, ap (is_free blk) ((==_iff bi k).0 same))
            | inr ne ↦ all k (ground arith) (omega (arith, lt)) small
          ],
        )
      ]
    ]
  ]

  scan_map_lem :
      (d : ℕ → Mem) (fuel b : ℕ)
      → b % bpb ≡ 0
      → sb.size < b + fuel * bpb
      → ((k : ℕ) × (scan_map sb d fuel b ≡ some k) × (k < sb.size) × (block_is_free d k ≡ true))
        ⊎ ((scan_map sb d fuel b ≡ none)
            × ((k : ℕ) → b ≤ k → k < sb.size → block_is_free d k ≡ false))
  unfolding scan_map
  scan_map_lem d zero b al h = inr (refl, λ k le lt. absurd (omega arith))
  scan_map_lem d (suc fuel) b al h = elim (Bool-cases (ltb b sb.size)) [
    | inr past ↦ inr (rw past refl, λ k le lt. absurd (ground arith))
    | inl inside ↦ elim (scan_bits_lem (d (bblock sb b)) b bpb 0) [
      | inl (bi, e, _, lt, small, free) ↦
          let same_block : bblock sb (b + bi) ≡ bblock sb b = omega (arith, al, lt) in
          let same_bit : (b + bi) % bpb ≡ bi = omega (arith, al, lt) in
          inl (b + bi, rw (inside, e) refl, small, rw (same_block, same_bit) free)
      | inr (e, none_here) ↦
          elim (scan_map_lem d fuel (b + bpb) (omega (arith, al)) (omega (arith, h))) [
            | inl (k, e', small, free) ↦ inl (k, rw (inside, e) e', small, free)
            | inr (e', none_there) ↦ inr (
              rw (inside, e) e',
              λ k le lt. elim (Bool-cases (ltb k (b + bpb))) [
                | inl near ↦
                    let below : k < b + bpb = ground arith in
                    let same_block : bblock sb k ≡ bblock sb b = omega (arith, al, le, below) in
                    let same_bit : k % bpb ≡ k - b = omega (arith, al, le, below) in
                    let place : b + (k - b) ≡ k = omega (arith, le) in
                    rw (same_block, same_bit)
                      (none_here (k - b) (omega arith) (omega (arith, le, below)) (rw place lt))
                | inr far ↦ none_there k (ground arith) lt
              ],
            )
          ]
    ]
  ]

  -- The bitmap's own blocks are in use.
  abbrev pub MapInUse : (ℕ → Mem) → Type 0
  MapInUse d = (c : ℕ) → c < sb.size → block_is_free d (bblock sb c) ≡ false

  block_is_free-put_ne :
      (d : ℕ → Mem) (b c : ℕ) (v : Mem)
      → b ≢ bblock sb c
      → block_is_free (put_block d b v) c ≡ block_is_free d c
  block_is_free-put_ne d b c v ne =
      let other : (bblock sb c == b) ≡ false = ground arith in rw other refl

  block_is_free-put_place :
      (d : ℕ → Mem) (b c : ℕ) (v : Mem)
      → bblock sb c ≡ bblock sb b
      → block_is_free (put_block d (bblock sb b) v) c ≡ is_free v (c % bpb)
  block_is_free-put_place d b c v same = rw (same, ==_refl (bblock sb b)) refl

  -- What becomes of the other blocks' bits where the bit of block `b` is changed.
  abbrev pub KeepsOthers : (ℕ → Mem) → (ℕ → Mem) → ℕ → Type 0
  KeepsOthers d d' b = (c : ℕ) → c < sb.size → b ≢ c → block_is_free d' c ≡ block_is_free d c

  abbrev pub allocated : Fs → ℕ → Fs
  allocated s b = record s {
    blocks =
        put_block (put_block s.blocks (bblock sb b) (set_place (s.blocks (bblock sb b)) (b % bpb)))
          b zero_block;
  }

  block_is_free-marked_ne :
      (d : ℕ → Mem) (b c : ℕ) (v : Mem → ℕ → Mem)
      → ((blk : Mem) (bi k : ℕ) → bi ≢ k → is_free (v blk bi) k ≡ is_free blk k)
      → b ≢ c
      → block_is_free (put_block d (bblock sb b) (v (d (bblock sb b)) (b % bpb))) c
        ≡ block_is_free d c
  block_is_free-marked_ne d b c v keep ne = elim (Bool-cases (bblock sb b == bblock sb c)) [
    | inl same ↦
        let e : bblock sb c ≡ bblock sb b = sym ((==_iff (bblock sb b) (bblock sb c)).0 same) in
        block_is_free-put_place d b c (v (d (bblock sb b)) (b % bpb)) e
        ∙ keep (d (bblock sb b)) (b % bpb) (c % bpb) (λ k. omega arith)
        ∙ ap (λ x. is_free (d x) (c % bpb)) (sym e)
    | inr other ↦
        block_is_free-put_ne d (bblock sb b) c (v (d (bblock sb b)) (b % bpb)) (λ e. ground arith)
  ]

  in_map :
      (d : ℕ → Mem) (b : ℕ)
      → MapInUse d
      → block_is_free d b ≡ true
      → (c : ℕ) → c < sb.size
      → b ≢ bblock sb c
  in_map d b mapped free c small e = cc (sym free ∙ ap (block_is_free d) e ∙ mapped c small)

  -- `balloc` panics exactly if no block of the disk is free. Else it returns a free block below the
  -- end of the disk, now in use and zeroed; all other blocks keep their state, and all but it and its
  -- bitmap block keep their content. The bitmap's own blocks are in use.
  pub balloc_lem :
      (s : Fs)
      → MapInUse s.blocks
      → (((c : ℕ) → c < sb.size → block_is_free s.blocks c ≡ false)
          × (balloc sb s ≡ panic "balloc: out of blocks"))
        ⊎ ((b : ℕ) × (s' : Fs) × (balloc sb s ≡ ok (b, s'))
            × (b < sb.size)
            × (block_is_free s.blocks b ≡ true)
            × (block_is_free s'.blocks b ≡ false)
            × KeepsOthers s.blocks s'.blocks b
            × ((x : ℕ) → s'.blocks b x ≡ 0)
            × ((x : ℕ) → x ≢ b → x ≢ bblock sb b → s'.blocks x ≡ s.blocks x))
  unfolding balloc
  balloc_lem s mapped =
      elim (scan_map_lem s.blocks (sb.size / bpb + 1) 0 (omega arith) (omega arith)) [
        | inr (e, all) ↦ inl (λ c small. all c (omega arith) small, rw (balloc, e) refl)
        | inl (b, e, small, free) ↦
            let marked : ℕ → Mem =
              put_block s.blocks (bblock sb b) (set_place (s.blocks (bblock sb b)) (b % bpb)) in
            let apart : (c : ℕ) → c < sb.size → b ≢ bblock sb c = in_map s.blocks b mapped free in
            inr (
              b,
              allocated s b,
              rw (balloc, e) refl,
              small,
              free,
              block_is_free-put_ne marked b b zero_block (apart b small)
                  ∙ block_is_free-put_place s.blocks b b
                      (set_place (s.blocks (bblock sb b)) (b % bpb)) refl
                  ∙ is_free-set_place (s.blocks (bblock sb b)) (b % bpb),
              (λ c lt ne.
                  block_is_free-put_ne marked b c zero_block (apart c lt)
                  ∙ block_is_free-marked_ne s.blocks b c set_place is_free-set_place_ne ne),
              (λ x. rw (==_refl b) refl),
              (λ x ne ne'.
                  let other : (x == b) ≡ false = ground arith in
                  let other' : (x == bblock sb b) ≡ false = ground arith in
                  rw (other, other') refl),
            )
      ]

  abbrev pub freed : Fs → ℕ → Fs
  freed s b = record s {
    blocks = put_block s.blocks (bblock sb b) (clear_place (s.blocks (bblock sb b)) (b % bpb));
  }

  -- `bfree` panics on a block that is free. Else the block is free afterwards, all other blocks keep
  -- their state, and no block but its bitmap block changes.
  pub bfree_lem :
      (s : Fs) (b : ℕ)
      → ((block_is_free s.blocks b ≡ true) × (bfree sb b s ≡ panic "freeing free block"))
        ⊎ ((s' : Fs) × (block_is_free s.blocks b ≡ false)
            × (bfree sb b s ≡ ok (tt, s'))
            × (block_is_free s'.blocks b ≡ true)
            × KeepsOthers s.blocks s'.blocks b
            × ((x : ℕ) → x ≢ bblock sb b → s'.blocks x ≡ s.blocks x))
  unfolding bfree
  bfree_lem s b = elim (Bool-cases (block_is_free s.blocks b)) [
    | inl free ↦ inl (free, rw free refl)
    | inr used ↦ inr (
      freed s b,
      used,
      rw used refl,
      block_is_free-put_place s.blocks b b (clear_place (s.blocks (bblock sb b)) (b % bpb)) refl
          ∙ is_free-clear_place (s.blocks (bblock sb b)) (b % bpb),
      (λ c lt ne. block_is_free-marked_ne s.blocks b c clear_place is_free-clear_place_ne ne),
      (λ x ne. let other : (x == bblock sb b) ≡ false = ground arith in rw other refl),
    )
  ]
