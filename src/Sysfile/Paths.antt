-- ===== src/Sysfile/Paths.antt =====
-- sysfile.c: the calls on paths. The calls of `begin_op` and `end_op` are in Log/Space; inode locks
-- are taken at once, so `iunlockput` is `iput`. `nlink` is a 16-bit `short`.
use os.Base.{
  ℕ, zero, suc, ◌+◌, ◌*◌, ◌/◌, ◌%◌, Bool, true, false, not, ◌&&◌, ◌||◌, Option, none, some, List,
  [], ◌∷◌, ◌==◌, ltb, leb, if◌then◌else◌, bit_and, replicate, length,
}
use os.Base.Result.{panic, fault}
use os.Fs.{SuperBlock, M, pure, halt, ◌>>=◌, ◌>>◌}
use os.Fs.Inodes.{get_inode, put_inode, ialloc, ilock, iupdate, iput}
use os.Fs.Content.{
  Device, t_dir, readi, writei, same_name, dirent_size, dirent_inum, dirlookup, dirlink, namex,
}
use os.Fs.Path.{dirsiz}

abbrev pub t_file : ℕ
t_file = 2

abbrev pub o_wronly : ℕ
o_wronly = 1

abbrev pub o_rdwr : ℕ
o_rdwr = 2

abbrev pub o_create : ℕ
o_create = 0x200

abbrev pub dot : List ℕ
dot = b'.' ∷ []

abbrev pub dot_dot : List ℕ
dot_dot = b'.' ∷ b'.' ∷ []

-- `ip->nlink++; iupdate(ip);` and the same with `--`
abbrev pub more_links : ℕ → ℕ
more_links n = (n + 1) % 65536

abbrev pub fewer_links : ℕ → ℕ
fewer_links n = (n + 65535) % 65536

module _ (sb : SuperBlock) (devsw : ℕ → Option Device) where
  abbrev pub relink : (ℕ → ℕ) → ℕ → M (Unit {0})
  relink change ip = do
    p ← get_inode ip
    put_inode ip (record p { nlink = change p.nlink })
    iupdate sb ip

  -- The loop of `isdirempty` from `off` on.
  unfoldable pub empty_dir_from : ℕ → ℕ → ℕ → M Bool
  empty_dir_from zero dp off = halt fault
  empty_dir_from (suc fuel) dp off =
      let rest : M Bool = empty_dir_from fuel dp (off + (dirent_size sb devsw)) in
      (do
        p ← get_inode dp
        if ltb off p.size
            then (do
              r ← readi sb devsw dp off (dirent_size sb devsw)
              elim r [
                | none ↦ halt (panic "isdirempty: readi")
                | some de ↦
                    if not (length de == (dirent_size sb devsw))
                    then halt (panic "isdirempty: readi")
                    else if dirent_inum sb devsw de == 0
                    then rest
                    else pure false
              ])
            else pure true)

  unfoldable pub isdirempty : ℕ → M Bool
  unfolding empty_dir_from
  isdirempty dp = do
    p ← get_inode dp
    empty_dir_from (p.size / (dirent_size sb devsw) + 2) dp (2 * (dirent_size sb devsw))

  -- `goto bad` of `sys_link`
  abbrev pub undo_link : ℕ → M Bool
  undo_link ip = do ilock sb ip; relink fewer_links ip; iput sb ip; pure false

  -- `sys_link` on the two paths; false is the result -1.
  unfoldable pub link : ℕ → List ℕ → List ℕ → M Bool
  unfolding namex dirlink
  link cwd old new = do
    found ← namex sb devsw cwd false old
    elim found [
      | none ↦ pure false
      | some (ip, last) ↦ (do
        ilock sb ip
        p ← get_inode ip
        if p.type == t_dir then (do iput sb ip; pure false) else (do
          relink more_links ip
          parent ← namex sb devsw cwd true new
          elim parent [
            | none ↦ undo_link ip
            | some (dp, name) ↦ (do
              ilock sb dp
              q ← get_inode ip
              linked ← dirlink sb devsw dp name q.inum
              iput sb dp
              if linked then (do iput sb ip; pure true) else undo_link ip)
          ]))
    ]

  -- `goto bad` of `sys_unlink`
  abbrev pub give_up_unlink : ℕ → M Bool
  give_up_unlink dp = do iput sb dp; pure false

  -- The part of `sys_unlink` on the inode `ip` with its entry at `off`.
  unfoldable pub unlink_entry : ℕ → ℕ → ℕ → M Bool
  unfolding isdirempty
  unlink_entry dp ip off = do
    ilock sb ip
    p ← get_inode ip
    if p.nlink == 0 || leb 32768 p.nlink then halt (panic "unlink: nlink < 1") else (do
      empty ← (if p.type == t_dir then isdirempty ip else pure true)
      if not empty then (do iput sb ip; give_up_unlink dp) else (do
        w ← writei sb devsw dp off (replicate (dirent_size sb devsw) 0)
        elim w [
          | none ↦ halt (panic "unlink: writei")
          | some n ↦
              if not (n == (dirent_size sb devsw)) then halt (panic "unlink: writei") else (do
                if p.type == t_dir then relink fewer_links dp else pure tt
                iput sb dp
                relink fewer_links ip
                iput sb ip
                pure true)
        ]))

  unfoldable pub unlink : ℕ → List ℕ → M Bool
  unfolding namex unlink_entry dirlookup
  unlink cwd path = do
    parent ← namex sb devsw cwd true path
    elim parent [
      | none ↦ pure false
      | some (dp, name) ↦ (do
        ilock sb dp
        if same_name sb devsw dirsiz name dot || same_name sb devsw dirsiz name dot_dot
            then give_up_unlink dp
            else (do
              found ← dirlookup sb devsw dp name
              elim found [ none ↦ give_up_unlink dp | some (ip, off) ↦ unlink_entry dp ip off ]))
    ]

  -- `dirlink`, with a panic where it fails.
  abbrev pub must_link : ℕ → List ℕ → ℕ → M (Unit {0}) → M (Unit {0})
  must_link dp name inum failing = do
    linked ← dirlink sb devsw dp name inum
    if linked then pure tt else failing

  -- The part of `create` that makes a new inode.
  unfoldable pub create_new : ℕ → List ℕ → ℕ → ℕ → ℕ → M (Option ℕ)
  unfolding dirlink ialloc
  create_new dp name type major minor = do
    ip ← ialloc sb type
    ilock sb ip
    p ← get_inode ip
    put_inode ip (record p { major = major; minor = minor; nlink = 1 })
    iupdate sb ip
    d ← get_inode dp
    if type == t_dir
        then (do
          relink more_links dp
          must_link ip dot p.inum (halt (panic "create dots"))
          must_link ip dot_dot d.inum (halt (panic "create dots")))
        else pure tt
    must_link dp name p.inum (halt (panic "create: dirlink"))
    iput sb dp
    pure (some ip)

  -- The inode, locked, or none for the null pointer.
  unfoldable pub create : ℕ → List ℕ → ℕ → ℕ → ℕ → M (Option ℕ)
  unfolding namex create_new dirlookup
  create cwd path type major minor = do
    parent ← namex sb devsw cwd true path
    elim parent [
      | none ↦ pure none
      | some (dp, name) ↦ (do
        ilock sb dp
        found ← dirlookup sb devsw dp name
        elim found [
          | none ↦ create_new dp name type major minor
          | some (ip, off) ↦ (do
            iput sb dp
            ilock sb ip
            p ← get_inode ip
            if type == t_file && p.type == t_file
                then pure (some ip)
                else (do iput sb ip; pure none))
        ])
    ]

  -- What `sys_open` does with the inode of its path.
  abbrev pub open_found : ℕ → Option (ℕ × List ℕ) → M (Option ℕ)
  open_found omode none = pure none
  open_found omode (some (ip, last)) = do
    ilock sb ip
    p ← get_inode ip
    if p.type == t_dir && not (omode == 0) then (do iput sb ip; pure none) else pure (some ip)

  -- The inode that `sys_open` opens.
  unfoldable pub open_inode : ℕ → List ℕ → ℕ → M (Option ℕ)
  unfolding namex create
  open_inode cwd path omode =
      if not (bit_and omode o_create == 0)
      then create cwd path t_file 0 0
      else (do found ← namex sb devsw cwd false path; open_found omode found)
