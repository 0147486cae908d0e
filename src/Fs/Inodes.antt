-- ===== src/Fs/Inodes.antt =====
-- fs.c: the inode cache and the inodes on the disk. An inode pointer is an index of the cache.
pub mod Cache
pub mod Stored
use os.Base.{
  ◌≡◌, refl, ℕ, zero, suc, ◌+◌, ◌-◌, ◌*◌, ◌/◌, ◌%◌, Bool, true, false, ◌&&◌, not, Option, none,
  some, List, [], ◌∷◌, ◌==◌, ltb, if◌then◌else◌, get_elem?, get_or, set, length,
}
use os.Base.Result.{Result, ok, panic, fault}
use os.Machine.{Mem, load32, store_words}
use os.Fs.{
  SuperBlock, Inode, Fs, M, pure, halt, ◌>>=◌, ◌>>◌, bread, log_block, bsize, ndirect, nindirect,
}
use os.Fs.Bitmap.{balloc, bfree}

unfoldable pub get_inode : ℕ → M Inode
get_inode ip s = elim (get_elem? s.icache ip) [ none ↦ fault | some p ↦ ok (p, s) ]

pub get_inode_at :
    (s : Fs) (ip : ℕ) (p : Inode) → get_elem? s.icache ip ≡ some p → get_inode ip s ≡ ok (p, s)
unfolding get_inode
get_inode_at s ip p at = rw (get_inode, at) refl

abbrev pub put_inode : ℕ → Inode → M (Unit {0})
put_inode ip p s = ok (tt, record s { icache = set s.icache ip p })

-- What the scan of `iget` finds: the inode's entry, or else the first entry that no one uses.
pub data Scanned : Type 0 where
  cached : ℕ → Scanned
  missing : Option ℕ → Scanned

abbrev pub first_empty : Option ℕ → ℕ → Inode → Option ℕ
first_empty (some e) i p = some e
first_empty none i p = if p.ref == 0 then some i else none

unfoldable pub scan_cache : ℕ → List Inode → ℕ → Option ℕ → Scanned
scan_cache inum [] i empty = missing empty
scan_cache inum (p ∷ ps) i empty =
    if ltb 0 p.ref && p.inum == inum
    then cached i
    else scan_cache inum ps (i + 1) (first_empty empty i p)

unfoldable pub idup : ℕ → M ℕ
idup ip = do p ← get_inode ip; put_inode ip (record p { ref = p.ref + 1 }); pure ip

unfoldable pub iget : ℕ → M ℕ
unfolding scan_cache idup
iget inum s = elim (scan_cache inum s.icache 0 none) [
  | cached i ↦ idup i s
  | missing none ↦ panic "iget: no inodes"
  | missing (some i) ↦
      (do p ← get_inode i; put_inode i (record p { inum = inum; ref = 1; valid = false }); pure i) s
]

-- `struct dinode`: sixteen words; two `short` fields make one.
abbrev pub dinode_words : Inode → List ℕ
dinode_words p = (p.type + 65536 * p.major) ∷ (p.minor + 65536 * p.nlink) ∷ p.size ∷ p.addrs

-- Where the inode stands: `IBLOCK`, and the offset in the block.
abbrev pub iblock : SuperBlock → ℕ → ℕ
iblock sb inum = inum / 8 + sb.inodestart

abbrev pub ioffset : ℕ → ℕ
ioffset inum = inum % 8 * 64

abbrev pub load_words : Mem → ℕ → ℕ → List ℕ
load_words m a zero = []
load_words m a (suc n) = load32 m a ∷ load_words m (a + 4) n

abbrev pub load_dinode : Mem → ℕ → Inode → Inode
load_dinode m a p = record p {
  valid = true;
  type = load32 m a % 65536;
  major = load32 m a / 65536;
  minor = load32 m (a + 4) % 65536;
  nlink = load32 m (a + 4) / 65536;
  size = load32 m (a + 8);
  addrs = load_words m (a + 12) 13;
}

-- An inode of the given type whose other fields on the disk are 0.
abbrev pub blank_words : ℕ → List ℕ
blank_words type = type ∷ 0 ∷ 0 ∷ 0 ∷ 0 ∷ 0 ∷ 0 ∷ 0 ∷ 0 ∷ 0 ∷ 0 ∷ 0 ∷ 0 ∷ 0 ∷ 0 ∷ 0 ∷ []

module _ (sb : SuperBlock) where
  -- The loop of `ialloc` from `inum` on, with the numbers left to try.
  unfoldable pub ialloc_from : ℕ → ℕ → ℕ → M ℕ
  ialloc_from type zero inum = halt (panic "ialloc: no inodes")
  ialloc_from type (suc n) inum =
      let rest : M ℕ = ialloc_from type n (inum + 1) in
      (do
        blk ← bread (iblock sb inum)
        if load32 blk (ioffset inum) % 65536 == 0
            then (do
              log_block (iblock sb inum) (store_words blk (ioffset inum) (blank_words type))
              iget inum)
            else rest)

  unfoldable pub ialloc : ℕ → M ℕ
  unfolding ialloc_from
  ialloc type = ialloc_from type (sb.ninodes - 1) 1

  unfoldable pub iupdate : ℕ → M (Unit {0})
  iupdate ip = do
    p ← get_inode ip
    blk ← bread (iblock sb p.inum)
    log_block (iblock sb p.inum) (store_words blk (ioffset p.inum) (dinode_words p))

  -- The inode is read from the disk if it is not valid.
  unfoldable pub ilock : ℕ → M (Unit {0})
  ilock ip = do
    p ← get_inode ip
    if ltb p.ref 1 then halt (panic "ilock") else if p.valid then pure tt else (do
      blk ← bread (iblock sb p.inum)
      let q = load_dinode blk (ioffset p.inum) p
      put_inode ip q
      if q.type == 0 then halt (panic "ilock: no type") else pure tt)

  -- The first loop of `itrunc`.
  unfoldable pub free_direct : ℕ → ℕ → ℕ → M (Unit {0})
  free_direct ip zero i = pure tt
  free_direct ip (suc n) i =
      let rest : M (Unit {0}) = free_direct ip n (i + 1) in
      (do
        p ← get_inode ip
        if get_or p.addrs i 0 == 0 then rest else (do
          bfree sb (get_or p.addrs i 0)
          put_inode ip (record p { addrs = set p.addrs i 0 })
          rest))

  -- The loop over the indirect block's words.
  unfoldable pub free_listed : List ℕ → M (Unit {0})
  free_listed [] = pure tt
  free_listed (a ∷ addrs) =
      let rest : M (Unit {0}) = free_listed addrs in if a == 0 then rest else (do bfree sb a; rest)

  unfoldable pub itrunc : ℕ → M (Unit {0})
  unfolding free_direct free_listed iupdate
  itrunc ip = do
    free_direct ip ndirect 0
    p ← get_inode ip
    if get_or p.addrs ndirect 0 == 0 then put_inode ip (record p { size = 0 }) else (do
      blk ← bread (get_or p.addrs ndirect 0)
      free_listed (load_words blk 0 nindirect)
      bfree sb (get_or p.addrs ndirect 0)
      put_inode ip (record p { addrs = set p.addrs ndirect 0; size = 0 }))
    iupdate ip

  -- The inode and its content are freed with the last reference, if no directory names it. A count
  -- of 0, which the code would make -1, stays 0: the callers put only what they got before.
  unfoldable pub iput : ℕ → M (Unit {0})
  unfolding itrunc iupdate
  iput ip = do
    p ← get_inode ip
    if p.valid && p.nlink == 0 && p.ref == 1
        then (do
          itrunc ip
          q ← get_inode ip
          put_inode ip (record q { type = 0 })
          iupdate ip
          q' ← get_inode ip
          put_inode ip (record q' { valid = false }))
        else pure tt
    r ← get_inode ip
    put_inode ip (record r { ref = r.ref - 1 })

  -- The block number in `ip->addrs[k]`, of a new block if there is none.
  unfoldable pub addr_at : ℕ → ℕ → M ℕ
  addr_at ip k = do
    p ← get_inode ip
    if get_or p.addrs k 0 == 0
        then (do
          a ← balloc sb
          q ← get_inode ip
          put_inode ip (record q { addrs = set q.addrs k a })
          pure a)
        else pure (get_or p.addrs k 0)

  -- Likewise for the word `n` of the indirect block.
  unfoldable pub indirect_at : ℕ → ℕ → M ℕ
  indirect_at b n = do
    blk ← bread b
    if load32 blk (4 * n) == 0
        then (do
          a ← balloc sb
          blk' ← bread b
          log_block b (store_words blk' (4 * n) (a ∷ []))
          pure a)
        else pure (load32 blk (4 * n))

  unfoldable pub bmap : ℕ → ℕ → M ℕ
  unfolding addr_at indirect_at
  bmap ip bn =
      if ltb bn ndirect
      then addr_at ip bn
      else if ltb (bn - ndirect) nindirect
      then (do b ← addr_at ip ndirect; indirect_at b (bn - ndirect))
      else halt (panic "bmap: out of range")
