-- ===== src/Fs/Bitmap.antt =====
-- fs.c: the bitmap of free blocks, `balloc` and `bfree`.
pub mod Alloc
use os.Base.{
  ℕ, zero, suc, ◌+◌, ◌-◌, ◌*◌, ◌/◌, ◌%◌, ◌^◌, Bool, true, false, Option, none, some, ◌==◌, ltb,
  if◌then◌else◌, bit_and, bit_or, bit_xor,
}
use os.Base.Result.{Result, ok, panic, fault}
use os.Machine.{Mem, store8}
use os.Fs.{SuperBlock, Fs, M, pure, halt, ◌>>=◌, ◌>>◌, bread, log_block, put_block, bpb}

-- `BBLOCK`
abbrev pub bblock : SuperBlock → ℕ → ℕ
bblock sb b = b / bpb + sb.bmapstart

-- `1 << (bi % 8)`
abbrev pub mask : ℕ → ℕ
mask bi = 2 ^ (bi % 8)

abbrev pub is_free : Mem → ℕ → Bool
is_free blk bi = bit_and (blk (bi / 8)) (mask bi) == 0

abbrev pub zero_block : Mem
zero_block x = 0

module _ (sb : SuperBlock) where
  -- The loop over the bits of one bitmap block, with `n` places left in the block.
  pub scan_bits : Mem → ℕ → ℕ → ℕ → Option ℕ
  scan_bits blk b zero bi = none
  scan_bits blk b (suc n) bi =
      let rest : Option ℕ = scan_bits blk b n (bi + 1) in
      if ltb (b + bi) sb.size then if is_free blk bi then some bi else rest else none

  -- The loop over the bitmap blocks, with fuel.
  pub scan_map : (ℕ → Mem) → ℕ → ℕ → Option ℕ
  scan_map d zero b = none
  scan_map d (suc fuel) b =
      let rest : Option ℕ = scan_map d fuel (b + bpb) in
      if ltb b sb.size
      then elim (scan_bits (d (bblock sb b)) b bpb 0) [ some bi ↦ some (b + bi) | none ↦ rest ]
      else none

  -- The bit of the found block is set, and the block is zeroed (`bzero`). There is a bitmap block for
  -- each 4096 blocks.
  unfoldable pub balloc : M ℕ
  unfolding scan_map
  balloc s = elim (scan_map s.blocks (sb.size / bpb + 1) 0) [
    | none ↦ panic "balloc: out of blocks"
    | some b ↦
        let blk : Mem = s.blocks (bblock sb b) in
        let bi : ℕ = b % bpb in
        let marked : Mem = store8 blk (bi / 8) (bit_or (blk (bi / 8)) (mask bi)) in
        ok (
          b,
          record s { blocks = put_block (put_block s.blocks (bblock sb b) marked) b zero_block },
        )
  ]

  unfoldable pub bfree : ℕ → M (Unit {0})
  bfree b = do
    blk ← bread (bblock sb b)
    let bi = b % bpb
    if is_free blk bi
        then halt (panic "freeing free block")
        else log_block (bblock sb b)
            (store8 blk (bi / 8) (bit_and (blk (bi / 8)) (bit_xor 255 (mask bi))))
