-- ===== src/Fs/Inodes/Stored.antt =====
-- fs.c: an inode written to the disk by `iupdate` is what `ilock` reads back.
use os.Base.{
  ℕ, suc, ◌+◌, ◌*◌, ◌/◌, ◌%◌, ◌^◌, ◌<◌, ◌≡◌, ◌≢◌, refl, sym, ap, ◌∙◌, true, false, some, List, [],
  ◌∷◌, ◌==◌, ltb, ==_refl, get_elem?, get_or, set, length, arith,
}
use os.Base.Result.{ok, ok-injective}
use os.Machine.{Mem, load32, store_words}
use os.Machine.Memory.{AreWords, load32-store_words}
use os.Fs.{SuperBlock, Inode, Fs, put_block}
use os.Fs.Inodes.{
  dinode_words, load_dinode, load_words, iblock, ioffset, iupdate, ilock, get_inode_at,
}

-- The fields fit their places on the disk.
pub record IsInode (p : Inode) : Type 0 where
  pub type_fits : p.type < 2 ^ 16
  pub major_fits : p.major < 2 ^ 16
  pub minor_fits : p.minor < 2 ^ 16
  pub nlink_fits : p.nlink < 2 ^ 16
  pub size_fits : p.size < 2 ^ 32
  pub addrs_fit : AreWords p.addrs
  pub addrs_count : length p.addrs ≡ 13

load_words-eq :
    (m : Mem) (a : ℕ) (ws : List ℕ)
    → ((k : ℕ) → k < length ws → load32 m (a + 4 * k) ≡ get_or ws k 0)
    → load_words m a (length ws) ≡ ws
load_words-eq m a [] h = refl
load_words-eq m a (w ∷ ws) h =
    let first : load32 m a ≡ load32 m (a + 4 * 0) = ap (load32 m) (omega arith) in
    let shifted : (k : ℕ) → load32 m (a + 4 + 4 * k) ≡ load32 m (a + 4 * suc k) =
      λ k. ap (load32 m) (omega arith) in
    λ i.
      (first ∙ h 0 (omega arith)) i
      ∷ load_words-eq m (a + 4) ws (λ k lt. shifted k ∙ h (suc k) (omega (arith, lt))) i

dinode-AreWords : (p : Inode) → IsInode p → AreWords (dinode_words p)
dinode-AreWords p h = (
  omega (arith, h.type_fits, h.major_fits),
  (omega (arith, h.minor_fits, h.nlink_fits), (h.size_fits, h.addrs_fit)),
)

-- What was written is read back, but that the copy is valid then.
load_dinode-store_words :
    (m : Mem) (a : ℕ) (p q : Inode)
    → IsInode p
    → load_dinode (store_words m a (dinode_words p)) a q
      ≡ record p { inum = q.inum; ref = q.ref; valid = true }
load_dinode-store_words m a p q h = λ i. record p {
  inum = q.inum;
  ref = q.ref;
  valid = true;
  type = type_back i;
  major = major_back i;
  minor = minor_back i;
  nlink = nlink_back i;
  size = word 2 (omega arith) i;
  addrs = addrs_back i;
}
  where
    word :
        (k : ℕ)
        → k < 16
        → load32 (store_words m a (dinode_words p)) (a + 4 * k) ≡ get_or (dinode_words p) k 0
    word k lt =
        load32-store_words m a (dinode_words p) k (dinode-AreWords p h)
          (omega (arith, h.addrs_count, lt))

    first : load32 (store_words m a (dinode_words p)) a ≡ p.type + 65536 * p.major
    first =
        (let e : a ≡ a + 4 * 0 = omega arith in ap (load32 (store_words m a (dinode_words p))) e)
        ∙ word 0 (omega arith)

    type_back : load32 (store_words m a (dinode_words p)) a % 65536 ≡ p.type
    type_back = omega (arith, first, h.type_fits)

    major_back : load32 (store_words m a (dinode_words p)) a / 65536 ≡ p.major
    major_back = omega (arith, first, h.type_fits)

    minor_back : load32 (store_words m a (dinode_words p)) (a + 4) % 65536 ≡ p.minor
    minor_back = omega (arith, word 1 (omega arith), h.minor_fits)

    nlink_back : load32 (store_words m a (dinode_words p)) (a + 4) / 65536 ≡ p.nlink
    nlink_back = omega (arith, word 1 (omega arith), h.minor_fits)

    addrs_back : load_words (store_words m a (dinode_words p)) (a + 12) 13 ≡ p.addrs
    addrs_back =
        ap (load_words (store_words m a (dinode_words p)) (a + 12)) (sym h.addrs_count)
        ∙ load_words-eq (store_words m a (dinode_words p)) (a + 12) p.addrs (λ k lt.
          (let e : a + 12 + 4 * k ≡ a + 4 * suc (suc (suc k)) = omega arith in
            ap (load32 (store_words m a (dinode_words p))) e)
          ∙ word (suc (suc (suc k))) (omega (arith, lt, h.addrs_count)))

module _ (sb : SuperBlock) where
  abbrev written : Fs → Inode → Fs
  written s p = record s {
    blocks =
        put_block s.blocks (iblock sb p.inum)
          (store_words (s.blocks (iblock sb p.inum)) (ioffset p.inum) (dinode_words p));
  }

  iupdate_at :
      (s : Fs) (ip : ℕ) (p : Inode)
      → get_elem? s.icache ip ≡ some p
      → iupdate sb ip s ≡ ok (tt, written s p)
  unfolding iupdate
  iupdate_at s ip p at = rw (iupdate, get_inode_at s ip p at) refl

  abbrev on_disk : Fs → Inode → Inode
  on_disk t q = load_dinode (t.blocks (iblock sb q.inum)) (ioffset q.inum) q

  ilock_at :
      (t : Fs) (ip : ℕ) (q : Inode)
      → get_elem? t.icache ip ≡ some q
      → q.valid ≡ false
      → 0 < q.ref
      → (on_disk t q).type ≢ 0
      → ilock sb ip t ≡ ok (tt, record t { icache = set t.icache ip (on_disk t q) })
  unfolding ilock
  ilock_at t ip q at stale used typed =
      let some_ref : ltb q.ref 1 ≡ false = ground arith in
      let some_type : ((on_disk t q).type == 0) ≡ false = ground arith in
      rw (ilock, get_inode_at t ip q at, some_ref, stale, some_type) refl

  -- `iupdate` writes an inode with its fields in range to the disk. From the blocks that it leaves,
  -- `ilock` of an entry in use for the inode, which is not valid, reads the same fields back.
  pub ilock-iupdate :
      (s s' t : Fs) (ip ip' : ℕ) (p q : Inode)
      → get_elem? s.icache ip ≡ some p
      → IsInode p
      → p.type ≢ 0
      → iupdate sb ip s ≡ ok (tt, s')
      → t.blocks ≡ s'.blocks
      → get_elem? t.icache ip' ≡ some q
      → q.inum ≡ p.inum
      → q.valid ≡ false
      → 0 < q.ref
      → ilock sb ip' t
        ≡ ok (
          tt,
          record t {
            icache = set t.icache ip' (record p { inum = q.inum; ref = q.ref; valid = true });
          },
        )
  ilock-iupdate s s' t ip ip' p q at fits typed run same at' e stale used =
      ilock_at t ip' q at' stale used
        (λ none_read. typed (sym (ap (λ (r : Inode). r.type) read) ∙ none_read))
      ∙ ap (λ r. ok (tt, record t { icache = set t.icache ip' r })) read
    where
      block_same :
          t.blocks (iblock sb p.inum)
          ≡ store_words (s.blocks (iblock sb p.inum)) (ioffset p.inum) (dinode_words p)
      block_same =
          ap (λ d. d (iblock sb p.inum))
            (same
              ∙ ap (λ (x : Unit {0} × Fs). x.1.blocks)
                  (ok-injective (sym run ∙ iupdate_at s ip p at)))
          ∙ (rw (==_refl (iblock sb p.inum)) refl)

      read :
          load_dinode (t.blocks (iblock sb q.inum)) (ioffset q.inum) q
          ≡ record p { inum = q.inum; ref = q.ref; valid = true }
      read =
          ap (λ n. load_dinode (t.blocks (iblock sb n)) (ioffset n) q) e
          ∙ ap (λ blk. load_dinode blk (ioffset p.inum) q) block_same
          ∙ load_dinode-store_words (s.blocks (iblock sb p.inum)) (ioffset p.inum) p q fits
