-- ===== src/Fs/Content/Read.antt =====
-- fs.c: `readi` gives the bytes of the file.
use os.Base.{
  ℕ, zero, suc, ◌+◌, ◌-◌, ◌*◌, ◌/◌, ◌%◌, ◌^◌, ◌≤◌, ◌<◌, ◌≡◌, ◌≢◌, refl, sym, ap, ◌∙◌, true, false,
  ◌||◌, ◌⊎◌, Option, none, some, ◌++◌, ◌==◌, ltb, min, if◌then◌else◌, get_elem?, get_or, arith,
  Bool-cases, inl, inr,
}
use os.Base.Result.{ok}
use os.Machine.{load32, add32}
use os.Fs.{SuperBlock, Inode, Fs, bsize, ndirect, nindirect}
use os.Fs.Inodes.{get_inode_at, addr_at, indirect_at, bmap}
use os.Fs.Content.{Device, t_dev, slice, chunk, read_loop, readi}

slice-append :
    (c : ℕ → ℕ) (off m n : ℕ) → slice c off (m + n) ≡ slice c off m ++ slice c (off + m) n
slice-append c off zero n =
    let e : off + 0 ≡ off = omega arith in let e' : 0 + n ≡ n = omega arith in rw (e, e') refl
slice-append c off (suc m) n =
    let e : off + suc m ≡ off + 1 + m = omega arith in
    let e' : suc m + n ≡ suc (m + n) = omega arith in rw (e, e', slice-append c (off + 1) m n) refl

slice-congr :
    (c d : ℕ → ℕ) (off off' n : ℕ)
    → ((k : ℕ) → k < n → c (off + k) ≡ d (off' + k))
    → slice c off n ≡ slice d off' n
slice-congr c d off off' zero h = refl
slice-congr c d off off' (suc n) h =
    let here : c off ≡ d off' =
      (let e : off + 0 ≡ off = omega arith in
        let e' : off' + 0 ≡ off' = omega arith in
        let z : 0 < suc n = omega arith in (sym (ap c e)) ∙ h 0 z ∙ ap d e') in
    let next : (k : ℕ) → k < n → c (off + 1 + k) ≡ d (off' + 1 + k) = (λ k below.
      let e : off + suc k ≡ off + 1 + k = omega arith in
      let e' : off' + suc k ≡ off' + 1 + k = omega arith in
      let z : suc k < suc n = omega arith in (sym (ap c e)) ∙ h (suc k) z ∙ ap d e') in
    rw (here, slice-congr c d (off + 1) (off' + 1) n next) refl

-- The number of the file's block `bn`, in the inode or in the indirect block; 0 is none.
abbrev pub block_of : Fs → Inode → ℕ → ℕ
block_of s p bn =
    if ltb bn ndirect
    then get_or p.addrs bn 0
    else load32 (s.blocks (get_or p.addrs ndirect 0)) (4 * (bn - ndirect))

-- The block is there.
abbrev pub HasBlock : Fs → Inode → ℕ → Type 0
HasBlock s p bn =
    (bn < ndirect + nindirect)
    × (block_of s p bn ≢ 0)
    × (ndirect ≤ bn → get_or p.addrs ndirect 0 ≢ 0)

-- The file's byte `x`.
abbrev pub content : Fs → Inode → ℕ → ℕ
content s p x = s.blocks (block_of s p (x / bsize)) (x % bsize)

-- The bytes `n` from `off` on that lie in the file: how `readi` cuts `n` off at the size.
abbrev pub available : ℕ → ℕ → ℕ → ℕ
available size off n = min n (size - off)

-- The test in front of `readi`.
readi_guard :
    (size off n : ℕ)
    → off < 2 ^ 32
    → n < 2 ^ 32
    → size < off ⊎ 2 ^ 32 ≤ off + n
    → (ltb size off || ltb (add32 off n) off) ≡ true
readi_guard size off n off_fits n_fits (inl past) = ground arith
readi_guard size off n off_fits n_fits (inr wraps) =
    let e : (off + n) % 2 ^ 32 ≡ off + n - 2 ^ 32 = omega arith in
    let t : ltb (add32 off n) off ≡ true = rw (e) (ground arith) in
    elim (Bool-cases (ltb size off)) [ inl c ↦ rw (c) refl | inr c ↦ rw (c, t) refl ]

module _ (sb : SuperBlock) (devsw : ℕ → Option Device) where
  addr_at_lem :
      (s : Fs) (ip k : ℕ) (p : Inode)
      → get_elem? s.icache ip ≡ some p
      → get_or p.addrs k 0 ≢ 0
      → addr_at sb ip k s ≡ ok (get_or p.addrs k 0, s)
  unfolding addr_at
  addr_at_lem s ip k p at there =
      let some_addr : (get_or p.addrs k 0 == 0) ≡ false = ground arith in
      rw (addr_at, get_inode_at s ip p at, some_addr) refl

  -- `bmap` gives an allocated block of the file and changes nothing.
  bmap_lem :
      (s : Fs) (ip bn : ℕ) (p : Inode)
      → get_elem? s.icache ip ≡ some p
      → HasBlock s p bn
      → bmap sb ip bn s ≡ ok (block_of s p bn, s)
  unfolding bmap indirect_at
  bmap_lem s ip bn p at (small, there, indirect) = elim (Bool-cases (ltb bn ndirect)) [
    | inl direct ↦
        let e : block_of s p bn ≡ get_or p.addrs bn 0 = rw (direct) refl in
        let some_addr : get_or p.addrs bn 0 ≢ 0 = λ z. there (e ∙ z) in
        rw (bmap, direct) (addr_at_lem s ip bn p at some_addr)
    | inr far ↦
        let near : ltb (bn - ndirect) nindirect ≡ true = ground arith in
        let e : block_of s p bn
            ≡ load32 (s.blocks (get_or p.addrs ndirect 0)) (4 * (bn - ndirect)) =
          rw (far) refl in
        let some_word : (load32 (s.blocks (get_or p.addrs ndirect 0)) (4 * (bn - ndirect)) == 0)
            ≡ false =
          (let word : load32 (s.blocks (get_or p.addrs ndirect 0)) (4 * (bn - ndirect)) ≢ 0 =
              λ z. there (e ∙ z) in
            ground arith) in
        rw
          (
            bmap,
            far,
            near,
            addr_at_lem s ip ndirect p at (indirect (ground arith)),
            indirect_at,
            some_word,
          )
          refl
  ]

  read_loop_lem :
      (s : Fs) (ip : ℕ) (p : Inode) (fuel off left : ℕ)
      → get_elem? s.icache ip ≡ some p
      → left ≤ fuel
      → ((x : ℕ) → off ≤ x → x < off + left → HasBlock s p (x / bsize))
      → read_loop sb devsw fuel ip off left s ≡ ok (slice (content s p) off left, s)
  unfolding read_loop
  read_loop_lem s ip p zero off left at enough there = let e : left ≡ 0 = omega arith in rw (e) refl
  read_loop_lem s ip p (suc fuel) off left at enough there = elim (Bool-cases (left == 0)) [
    | inl none_left ↦ let e : left ≡ 0 = ground arith in rw (e) refl
    | inr some_left ↦
        let some_left' : 1 ≤ left = ground arith in
        let m : ℕ = chunk off left in
        let some_byte : 1 ≤ m = omega arith in
        let fits : off % bsize + m ≤ bsize = omega arith in
        let below : m ≤ left = omega arith in
        let block : bmap sb ip (off / bsize) s ≡ ok (block_of s p (off / bsize), s) =
          bmap_lem s ip (off / bsize) p at (there off (omega arith) (omega arith)) in
        let rest : read_loop sb devsw fuel ip (off + m) (left - m) s
            ≡ ok (slice (content s p) (off + m) (left - m), s) =
          read_loop_lem s ip p fuel (off + m) (left - m) at (omega arith)
            (λ x from to. there x (omega arith) (omega arith)) in
        let bytes : slice (s.blocks (block_of s p (off / bsize))) (off % bsize) m
            ≡ slice (content s p) off m =
          slice-congr (s.blocks (block_of s p (off / bsize))) (content s p) (off % bsize) off m
            (λ k below_m.
              let same : (off + k) / bsize ≡ off / bsize = omega arith in
              let at_k : (off + k) % bsize ≡ off % bsize + k = omega arith in
              rw (content, same, at_k) refl) in
        let split : m + (left - m) ≡ left = omega arith in
        rw (some_left, block, rest, bytes)
          (ap (λ bs. ok (bs, s))
            (sym (slice-append (content s p) off m (left - m))
              ∙ ap (slice (content s p) off) split))
  ]

  -- For a file that is no device and whose blocks are there for what is read, `readi` changes
  -- nothing. It fails if `off` is behind the end or `off + n` wraps around; otherwise it gives the
  -- bytes of the content from `off` on, `n` of them or as many as are left.
  pub readi_lem :
      (s : Fs) (ip off n : ℕ) (p : Inode)
      → get_elem? s.icache ip ≡ some p
      → p.type ≢ t_dev
      → off < 2 ^ 32
      → n < 2 ^ 32
      → ((x : ℕ) → off ≤ x → x < off + available p.size off n → HasBlock s p (x / bsize))
      → (p.size < off ⊎ 2 ^ 32 ≤ off + n → readi sb devsw ip off n s ≡ ok (none, s))
        × (off ≤ p.size
            → off + n < 2 ^ 32
            → readi sb devsw ip off n s
              ≡ ok (some (slice (content s p) off (available p.size off n)), s))
  unfolding readi
  readi_lem s ip off n p at file off_fits n_fits there =
      let no_device : (p.type == t_dev) ≡ false = ground arith in
      (
        λ bad.
            let refused : (ltb p.size off || ltb (add32 off n) off) ≡ true =
              readi_guard p.size off n off_fits n_fits bad in
            rw (readi, get_inode_at s ip p at, no_device, refused) refl,
        λ start fits.
            let accepted : (ltb p.size off || ltb (add32 off n) off) ≡ false = ground arith in
            let left : (if ltb p.size (off + n) then p.size - off else n) ≡ available p.size off n =
              ground arith in
            rw
              (
                readi,
                get_inode_at s ip p at,
                no_device,
                accepted,
                left,
                read_loop_lem s ip p (available p.size off n) off (available p.size off n) at
                    (omega arith) there,
              )
              refl,
      )
