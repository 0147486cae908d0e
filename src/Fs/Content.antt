-- ===== src/Fs/Content.antt =====
-- fs.c: the content of files and directories, and path lookup. `readi` gives the bytes that it copies
-- to the caller and `writei` takes them; none is the result -1. `devsw` is what the drivers put
-- there: a driver's `read` and `write`, which may fail.
pub mod Read
use os.Base.{
  ℕ, zero, suc, ◌+◌, ◌-◌, ◌*◌, ◌/◌, ◌%◌, Bool, true, false, ◌&&◌, ◌||◌, not, Option, none, some,
  List, [], ◌∷◌, ◌++◌, ◌==◌, ltb, min, if◌then◌else◌, take, drop, length, replicate,
}
use os.Base.Result.{Result, ok, panic, fault}
use os.Machine.{Mem, add32, store_bytes}
use os.Fs.{SuperBlock, Inode, Fs, M, pure, halt, ◌>>=◌, ◌>>◌, bread, log_block, bsize}
use os.Fs.Inodes.{get_inode, put_inode, iget, idup, iput, ilock, iupdate, bmap}
use os.Fs.Path.{slash, dirsiz, skipelem}

-- stat.h
abbrev pub t_dir : ℕ
t_dir = 1

abbrev pub t_dev : ℕ
t_dev = 3

abbrev pub maxfile : ℕ
maxfile = 140

pub record Device : Type 0 where
  pub read : ℕ → M (Option (List ℕ))
  pub write : List ℕ → M (Option ℕ)

-- `m` bytes of a block.
abbrev pub slice : (ℕ → ℕ) → ℕ → ℕ → List ℕ
slice c off zero = []
slice c off (suc n) = c off ∷ slice c (off + 1) n

-- How many bytes one round copies: up to the end of the block.
abbrev pub chunk : ℕ → ℕ → ℕ
chunk off left = min left (bsize - off % bsize)

module _ (sb : SuperBlock) (devsw : ℕ → Option Device) where
  -- The loop of `readi` with `left` bytes to copy; a fault if the fuel runs out.
  unfoldable pub read_loop : ℕ → ℕ → ℕ → ℕ → M (List ℕ)
  read_loop zero ip off left = if left == 0 then pure [] else halt fault
  read_loop (suc fuel) ip off left =
      let round : M (List ℕ) = (do
        b ← bmap sb ip (off / bsize)
        blk ← bread b
        rest ← read_loop fuel ip (off + chunk off left) (left - chunk off left)
        pure (slice blk (off % bsize) (chunk off left) ++ rest)) in
      if left == 0 then pure [] else round

  unfoldable pub readi : ℕ → ℕ → ℕ → M (Option (List ℕ))
  unfolding read_loop
  readi ip off n = do
    p ← get_inode ip
    if p.type == t_dev
        then elim (devsw p.major) [ none ↦ pure none | some d ↦ d.read n ]
        else if ltb p.size off || ltb (add32 off n) off
        then pure none
        else (do
          let left = (if ltb p.size (off + n) then p.size - off else n)
          bytes ← read_loop left ip off left
          pure (some bytes))

  unfoldable pub write_loop : ℕ → ℕ → ℕ → List ℕ → M (Unit {0})
  write_loop zero ip off src = if length src == 0 then pure tt else halt fault
  write_loop (suc fuel) ip off src =
      let m : ℕ = chunk off (length src) in
      let round : M (Unit {0}) = (do
        b ← bmap sb ip (off / bsize)
        blk ← bread b
        log_block b (store_bytes blk (off % bsize) (take m src))
        write_loop fuel ip (off + m) (drop m src)) in
      if length src == 0 then pure tt else round

  unfoldable pub writei : ℕ → ℕ → List ℕ → M (Option ℕ)
  unfolding write_loop
  writei ip off src = do
    p ← get_inode ip
    if p.type == t_dev
        then elim (devsw p.major) [ none ↦ pure none | some d ↦ d.write src ]
        else if ltb p.size off || ltb (add32 off (length src)) off
        then pure none
        else if ltb (maxfile * bsize) (off + length src)
        then pure none
        else (do
          write_loop (length src) ip off src
          q ← get_inode ip
          if ltb 0 (length src) && ltb q.size (off + length src)
              then (do put_inode ip (record q { size = off + length src }); iupdate sb ip)
              else pure tt
          pure (some (length src)))

  abbrev pub head_or_nul : List ℕ → ℕ
  head_or_nul [] = 0
  head_or_nul (c ∷ cs) = c

  -- Whether `namecmp` gives 0: `strncmp` on at most `n` bytes.
  unfoldable pub same_name : ℕ → List ℕ → List ℕ → Bool
  same_name zero s t = true
  same_name (suc n) s t =
      let rest : Bool = same_name n (drop 1 s) (drop 1 t) in
      if head_or_nul s == 0
      then head_or_nul t == 0
      else if head_or_nul s == head_or_nul t
      then rest
      else false

  abbrev pub dirent_size : ℕ
  dirent_size = 16

  -- `de.inum` of an entry's bytes; `de.name` is what follows.
  abbrev pub dirent_inum : List ℕ → ℕ
  dirent_inum bytes = head_or_nul bytes + 256 * head_or_nul (drop 1 bytes)

  -- One entry, or a panic.
  unfoldable pub read_dirent : Bool → ℕ → ℕ → M (List ℕ)
  read_dirent linking ip off = do
    r ← readi ip off dirent_size
    elim r [
      | none ↦ halt (panic (if linking then "dirlink read" else "dirlookup read"))
      | some bytes ↦
          if length bytes == dirent_size
          then pure bytes
          else halt (panic (if linking then "dirlink read" else "dirlookup read"))
    ]

  -- The loop of `dirlookup`: the inode number and the offset of the entry.
  unfoldable pub lookup_from : ℕ → ℕ → ℕ → List ℕ → ℕ → M (Option (ℕ × ℕ))
  lookup_from zero dp size name off = halt fault
  lookup_from (suc fuel) dp size name off =
      let rest : M (Option (ℕ × ℕ)) = lookup_from fuel dp size name (off + dirent_size) in
      if ltb off size
      then (do
        de ← read_dirent false dp off
        if dirent_inum de == 0
            then rest
            else if same_name dirsiz name (drop 2 de)
            then pure (some (dirent_inum de, off))
            else rest)
      else pure none

  unfoldable pub dirlookup : ℕ → List ℕ → M (Option (ℕ × ℕ))
  unfolding lookup_from
  dirlookup dp name = do
    p ← get_inode dp
    if not (p.type == t_dir) then halt (panic "dirlookup not DIR") else (do
      found ← lookup_from (p.size / dirent_size + 2) dp p.size name 0
      elim found [
        | none ↦ pure none
        | some (inum, off) ↦ (do ip ← iget inum; pure (some (ip, off)))
      ])

  -- The offset of the first empty entry, or the end.
  unfoldable pub empty_from : ℕ → ℕ → ℕ → ℕ → M ℕ
  empty_from zero dp size off = halt fault
  empty_from (suc fuel) dp size off =
      let rest : M ℕ = empty_from fuel dp size (off + dirent_size) in
      if ltb off size
      then (do de ← read_dirent true dp off; if dirent_inum de == 0 then pure off else rest)
      else pure off

  abbrev pub dirent : List ℕ → ℕ → List ℕ
  dirent name inum =
      inum % 256 ∷ inum / 256 % 256 ∷ (take dirsiz name ++ replicate (dirsiz - length name) 0)

  -- False is the result -1.
  unfoldable pub dirlink : ℕ → List ℕ → ℕ → M Bool
  unfolding empty_from dirlookup
  dirlink dp name inum = do
    found ← dirlookup dp name
    elim found [
      | some (ip, off) ↦ (do iput sb ip; pure false)
      | none ↦ (do
        p ← get_inode dp
        off ← empty_from (p.size / dirent_size + 2) dp p.size 0
        w ← writei dp off (dirent name inum)
        elim w [
          | none ↦ halt (panic "dirlink")
          | some n ↦ if n == dirent_size then pure true else halt (panic "dirlink")
        ])
    ]

  -- The loop of `namex`, from the inode `ip` on; the result is the inode, and the name of the last
  -- element if the parent is asked for.
  unfoldable pub namex_from : ℕ → Bool → ℕ → List ℕ → M (Option (ℕ × List ℕ))
  namex_from zero parent ip path = halt fault
  namex_from (suc fuel) parent ip path = elim (skipelem path) [
    | none ↦ if parent then (do iput sb ip; pure none) else pure (some (ip, []))
    | some (name, rest) ↦ (do
      ilock sb ip
      p ← get_inode ip
      if not (p.type == t_dir)
          then (do iput sb ip; pure none)
          else if parent && length rest == 0
          then pure (some (ip, name))
          else (do
            next ← dirlookup ip name
            iput sb ip
            elim next [ none ↦ pure none | some (ip', off) ↦ namex_from fuel parent ip' rest ]))
  ]

  abbrev pub is_absolute : List ℕ → Bool
  is_absolute [] = false
  is_absolute (c ∷ path) = c == slash

  -- `cwd` is the caller's current directory, and inode 1 the root.
  unfoldable pub namex : ℕ → Bool → List ℕ → M (Option (ℕ × List ℕ))
  unfolding namex_from
  namex cwd parent path = do
    ip ← (if is_absolute path then iget 1 else idup cwd)
    namex_from (length path + 1) parent ip path
