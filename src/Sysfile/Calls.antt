-- ===== src/Sysfile/Calls.antt =====
-- sysfile.c: the calls on paths with their arguments. A process without a current directory, which
-- none is, faults on a path.
use os.Base.{ℕ, ◌%◌, Bool, false, not, ◌||◌, Option, none, some, List, ◌==◌, if◌then◌else◌, bit_and}
use os.Base.Int.{ℤ, pos, minus_one}
use os.Base.Result.{Result, ok, fault, ◌>>=◌}
use os.Proc.{Proc}
use os.Fs.{SuperBlock, M}
use os.Fs.Inodes.{get_inode, ilock, iput}
use os.Fs.Content.{Device, t_dir, t_dev, slice, namex}
use os.File.{fd_inode, File, filealloc, fileclose}
use os.Syscall.{argint, argstr}
use os.Sysfile.{Sys, fdalloc, update_file}
use os.Sysfile.Paths.{o_wronly, o_rdwr, link, unlink, create, open_inode}

-- A routine of the file system, run on the state of the calls.
abbrev pub on_fs : {A : Type 0} → Sys → M A → Result (A × Sys)
on_fs s m = do (a, fs') ← m s.files.fs; ok (a, record s { files = record (s.files) { fs = fs' } })

-- The string argument `n`: none is the result -1.
unfoldable pub arg_path : ℕ → Sys → Option (List ℕ)
unfolding argstr
arg_path n s = elim (argstr n (s.proc, s.mem)) [
  | none ↦ none
  | some (addr, len) ↦ some (slice s.mem addr len)
]

abbrev pub cwd_of : Sys → Result ℕ
cwd_of s = elim s.proc.cwd [ none ↦ fault | some ip ↦ ok ip ]

abbrev pub zero_or_failed : Bool → ℤ
zero_or_failed b = if b then pos 0 else minus_one

module _ (sb : SuperBlock) (devsw : ℕ → Option Device) where
  unfoldable pub sys_link : Sys → Result (ℤ × Sys)
  unfolding arg_path link
  sys_link s = elim (arg_path 0 s) [
    | none ↦ ok (minus_one, s)
    | some old ↦ elim (arg_path 1 s) [
      | none ↦ ok (minus_one, s)
      | some new ↦ do
        cwd ← cwd_of s
        (linked, s') ← on_fs s (link sb devsw cwd old new)
        ok (zero_or_failed linked, s')
    ]
  ]

  unfoldable pub sys_unlink : Sys → Result (ℤ × Sys)
  unfolding arg_path unlink
  sys_unlink s = elim (arg_path 0 s) [
    | none ↦ ok (minus_one, s)
    | some path ↦ do
      cwd ← cwd_of s
      (unlinked, s') ← on_fs s (unlink sb devsw cwd path)
      ok (zero_or_failed unlinked, s')
  ]

  -- Where `sys_open` gets no file or no descriptor, with the file to close.
  abbrev pub no_descriptor : Option ℕ → ℕ → Sys → Result (ℤ × Sys)
  no_descriptor none ip s = do (done, s') ← on_fs s (iput sb ip); ok (minus_one, s')
  no_descriptor (some f) ip s = do
    files' ← fileclose sb f s.files
    (done, s') ← on_fs (record s { files = files' }) (iput sb ip)
    ok (minus_one, s')

  abbrev pub opened : ℕ → ℕ → File → File
  opened ip omode f = record f {
    type = fd_inode;
    ip = ip;
    off = 0;
    readable = bit_and omode o_wronly == 0;
    writable = not (bit_and omode o_wronly == 0) || not (bit_and omode o_rdwr == 0);
  }

  -- `sys_open` with the file `a`, from where it has called `fdalloc`.
  abbrev pub open_slot : ℕ → ℕ → ℕ → Option ℕ × Proc → Sys → Result (ℤ × Sys)
  open_slot ip omode a (none, p) s = no_descriptor (some a) ip s
  open_slot ip omode a (some d, p) s = do
    w ← update_file a (opened ip omode) s.files
    ok (pos d, record s { proc = p; files = w })

  -- The same from where it has called `filealloc`.
  abbrev pub open_entry : ℕ → ℕ → Option ℕ × List File → Sys → Result (ℤ × Sys)
  open_entry ip omode (none, files') s =
      no_descriptor none ip (record s { files = record (s.files) { files = files' } })
  open_entry ip omode (some a, files') s =
      open_slot ip omode a (fdalloc a s.proc)
        (record s { files = record (s.files) { files = files' } })

  -- `sys_open` from where it has the inode.
  unfoldable pub open_file : ℕ → ℕ → Sys → Result (ℤ × Sys)
  unfolding filealloc fdalloc
  open_file ip omode s = open_entry ip omode (filealloc s.files.files) s

  abbrev pub open_result : ℕ → Option ℕ → Sys → Result (ℤ × Sys)
  open_result omode none s = ok (minus_one, s)
  open_result omode (some ip) s = open_file ip omode s

  -- `sys_open` from where it has its arguments.
  unfoldable pub open_path : List ℕ → ℕ → Sys → Result (ℤ × Sys)
  unfolding open_inode open_file
  open_path path omode s = do
    cwd ← cwd_of s
    (found, s') ← on_fs s (open_inode sb devsw cwd path omode)
    open_result omode found s'

  unfoldable pub sys_open : Sys → Result (ℤ × Sys)
  unfolding arg_path argint open_path
  sys_open s = elim (arg_path 0 s) [
    | none ↦ ok (minus_one, s)
    | some path ↦ elim (argint 1 (s.proc, s.mem)) [
      | none ↦ ok (minus_one, s)
      | some omode ↦ open_path path omode s
    ]
  ]

  -- `sys_mkdir` and `sys_mknod` from where they have their arguments.
  unfoldable pub make_node : List ℕ → ℕ → ℕ → ℕ → Sys → Result (ℤ × Sys)
  unfolding create
  make_node path type major minor s = do
    cwd ← cwd_of s
    (made, s1) ← on_fs s (create sb devsw cwd path type major minor)
    elim made [
      | none ↦ ok (minus_one, s1)
      | some ip ↦ do (done, s2) ← on_fs s1 (iput sb ip); ok (pos 0, s2)
    ]

  unfoldable pub sys_mkdir : Sys → Result (ℤ × Sys)
  unfolding arg_path make_node
  sys_mkdir s = elim (arg_path 0 s) [
    | none ↦ ok (minus_one, s)
    | some path ↦ make_node path t_dir 0 0 s
  ]

  -- The numbers are cut to `short`.
  unfoldable pub sys_mknod : Sys → Result (ℤ × Sys)
  unfolding arg_path argint make_node
  sys_mknod s = elim (arg_path 0 s) [
    | none ↦ ok (minus_one, s)
    | some path ↦ elim (argint 1 (s.proc, s.mem)) [
      | none ↦ ok (minus_one, s)
      | some major ↦ elim (argint 2 (s.proc, s.mem)) [
        | none ↦ ok (minus_one, s)
        | some minor ↦ make_node path t_dev (major % 65536) (minor % 65536) s
      ]
    ]
  ]

  unfoldable pub sys_chdir : Sys → Result (ℤ × Sys)
  unfolding arg_path namex ilock iput
  sys_chdir s = elim (arg_path 0 s) [
    | none ↦ ok (minus_one, s)
    | some path ↦ do
      cwd ← cwd_of s
      (found, s1) ← on_fs s (namex sb devsw cwd false path)
      elim found [
        | none ↦ ok (minus_one, s1)
        | some (ip, last) ↦ do
          (locked, s2) ← on_fs s1 (ilock sb ip)
          (p, s3) ← on_fs s2 (get_inode ip)
          if not (p.type == t_dir)
              then (do (done, s4) ← on_fs s3 (iput sb ip); ok (minus_one, s4))
              else (do
                (done, s4) ← on_fs s3 (iput sb cwd)
                ok (pos 0, record s4 { proc = record (s4.proc) { cwd = some ip } }))
      ]
  ]
