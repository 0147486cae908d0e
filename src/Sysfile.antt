-- ===== src/Sysfile.antt =====
-- sysfile.c: the calls on file descriptors, with the parts of file.c, fs.c and pipe.c under them
-- that are not in File: `filestat` with `stati`, and `pipealloc`. A call gives its result, or sleeps
-- where File and Pipe do. `page` is what `kalloc` gives `pipealloc`: the bytes of a page, or none.
pub mod Paths
pub mod Calls
pub mod Descriptors
pub mod Opened
pub mod OpenFile
pub mod Open
mod Tests
use os.Base.{
  ℕ, zero, suc, ◌+◌, ◌*◌, ◌%◌, ◌/◌, ◌^◌, Bool, true, false, not, Option, none, some, List, [], ◌∷◌,
  ◌++◌, ◌==◌, ltb, leb, if◌then◌else◌, get_elem?, set, length,
}
use os.Base.Int.{ℤ, pos, negsuc, minus_one}
use os.Base.Result.{Result, ok, panic, fault, ◌>>=◌}
use os.Machine.{Mem, add32, load32, store_bytes, store_words}
use os.Proc.{Proc}
use os.Pipe.{Outcome, returns, fails, sleeps, Pipe, pipealloc}
use os.Fs.{SuperBlock, Inode, Fs}
use os.Fs.Inodes.{ilock}
use os.Fs.Content.{Device, slice}
use os.File.{
  FileType, fd_none, fd_pipe, fd_inode, File, Files, filealloc, filedup, fileclose, fileread,
  filewrite, get_file,
}
use os.Syscall.{to_int, fetchint, fetchstr, argint, argptr, argstr}

-- The calling process with its memory, and the open files.
pub record Sys : Type 0 where
  pub proc : Proc
  pub mem : Mem
  pub files : Files

-- `NOFILE`
abbrev pub nofile : ℕ
nofile = 16

abbrev pub file_at : List (Option ℕ) → ℤ → Option (ℕ × ℕ)
file_at ofile (negsuc n) = none
file_at ofile (pos fd) =
    if leb nofile fd
    then none
    else elim (get_elem? ofile fd) [ none ↦ none | some none ↦ none | some (some f) ↦ some (fd, f) ]

-- The descriptor and the file; none is the result -1.
unfoldable pub argfd : ℕ → Sys → Option (ℕ × ℕ)
unfolding argint
argfd n s = elim (argint n (s.proc, s.mem)) [
  | none ↦ none
  | some fd ↦ file_at s.proc.ofile (to_int fd)
]

-- The loop of `fdalloc` from the descriptor `fd` on, on the entries from there on.
unfoldable pub first_free : ℕ → List (Option ℕ) → Option ℕ
first_free fd [] = none
first_free fd (none ∷ ofile) = some fd
first_free fd (some f ∷ ofile) = first_free (fd + 1) ofile

unfoldable pub fdalloc : ℕ → Proc → Option ℕ × Proc
unfolding first_free
fdalloc f p = elim (first_free 0 p.ofile) [
  | none ↦ (none, p)
  | some fd ↦ (some fd, record p { ofile = set p.ofile fd (some f) })
]

-- `sys_dup` from where it has called `fdalloc`.
abbrev pub dup_to : ℕ → Option ℕ × Proc → Sys → Result (ℤ × Sys)
dup_to f (none, p) s = ok (minus_one, s)
dup_to f (some fd, p) s = do
  files' ← filedup f s.files.files
  ok (pos fd, record s { proc = p; files = record (s.files) { files = files' } })

unfoldable pub sys_dup : Sys → Result (ℤ × Sys)
unfolding argfd fdalloc filedup
sys_dup s = elim (argfd 0 s) [
  | none ↦ ok (minus_one, s)
  | some (old, f) ↦ dup_to f (fdalloc f s.proc) s
]

-- The arguments of `sys_read` and `sys_write`: the file, the buffer and the count.
unfoldable pub arg_buffer : Sys → Option (ℕ × ℕ × ℕ)
unfolding argfd argint argptr
arg_buffer s = elim (argfd 0 s) [
  | none ↦ none
  | some (fd, f) ↦ elim (argint 2 (s.proc, s.mem)) [
    | none ↦ none
    | some n ↦ elim (argptr 1 (to_int n) (s.proc, s.mem)) [ none ↦ none | some p ↦ some (f, p, n) ]
  ]
]

module _ (sb : SuperBlock) (devsw : ℕ → Option Device) where
  -- The bytes are stored at the buffer.
  unfoldable pub sys_read : Sys → Result (Outcome ℤ × Sys)
  unfolding arg_buffer fileread
  sys_read s = elim (arg_buffer s) [
    | none ↦ ok (returns minus_one, s)
    | some (f, p, n) ↦ do
      (r, files') ← fileread sb devsw s.proc.killed f n s.files
      let s' : Sys = record s { files = files' }
      elim r [
        | returns bytes ↦
            ok (returns (pos (length bytes)), record s' { mem = store_bytes s.mem p bytes })
        | fails ↦ ok (returns minus_one, s')
        | sleeps left ↦ ok (sleeps left, s')
      ]
  ]

  unfoldable pub sys_write : Sys → Result (Outcome ℤ × Sys)
  unfolding arg_buffer filewrite
  sys_write s = elim (arg_buffer s) [
    | none ↦ ok (returns minus_one, s)
    | some (f, p, n) ↦ do
      (r, files') ← filewrite sb devsw s.proc.killed f (slice s.mem p n) s.files
      let s' : Sys = record s { files = files' }
      elim r [
        | returns m ↦ ok (returns (pos m), s')
        | fails ↦ ok (returns minus_one, s')
        | sleeps left ↦ ok (sleeps left, s')
      ]
  ]

-- `struct stat`: type and two bytes of padding, device, inode number, links and padding, size.
abbrev pub stat_size : ℕ
stat_size = 20

-- `stati`, on device 1; the padding keeps what it holds.
unfoldable pub stati : Inode → Mem → ℕ → Mem
stati p m st =
    store_words
      (store_bytes
        (store_words (store_bytes m st (p.type % 256 ∷ p.type / 256 % 256 ∷ [])) (st + 4)
          (1 ∷ p.inum ∷ []))
        (st + 12) (p.nlink % 256 ∷ p.nlink / 256 % 256 ∷ []))
      (st + 16) (p.size ∷ [])

abbrev pub pipe_end : ℕ → Bool → File → File
pipe_end i reads f = record f { type = fd_pipe; readable = reads; writable = not reads; pipe = i }

abbrev pub update_file : ℕ → (File → File) → Files → Result Files
update_file f change w = do p ← get_file f w; ok (record w { files = set w.files f (change p) })

module _ (sb : SuperBlock) where
  unfoldable pub sys_close : Sys → Result (ℤ × Sys)
  unfolding argfd fileclose
  sys_close s = elim (argfd 0 s) [
    | none ↦ ok (minus_one, s)
    | some (fd, f) ↦ do
      files' ← fileclose sb f s.files
      ok (
        pos 0,
        record s { proc = record (s.proc) { ofile = set s.proc.ofile fd none }; files = files' },
      )
  ]

  unfoldable pub filestat : ℕ → ℕ → Sys → Result (ℤ × Sys)
  unfolding ilock stati
  filestat f st s = do
    file ← get_file f s.files
    elim file.type [
      | fd_none ↦ ok (minus_one, s)
      | fd_pipe ↦ ok (minus_one, s)
      | fd_inode ↦ do
        (locked, fs') ← ilock sb file.ip s.files.fs
        elim (get_elem? fs'.icache file.ip) [
          | none ↦ fault
          | some p ↦
              ok (pos 0, record s { mem = stati p s.mem st; files = record (s.files) { fs = fs' } })
        ]
    ]

  unfoldable pub sys_fstat : Sys → Result (ℤ × Sys)
  unfolding argfd argptr filestat
  sys_fstat s = elim (argfd 0 s) [
    | none ↦ ok (minus_one, s)
    | some (fd, f) ↦ elim (argptr 1 (pos stat_size) (s.proc, s.mem)) [
      | none ↦ ok (minus_one, s)
      | some st ↦ filestat f st s
    ]
  ]

  -- The two files of a new pipe.
  unfoldable pub pipealloc_files : Option (List ℕ) → Files → Result (Option (ℕ × ℕ) × Files)
  unfolding filealloc fileclose pipealloc
  pipealloc_files page w =
      let (f0, files0) = filealloc w.files in
      elim f0 [
        | none ↦ ok (none, w)
        | some a ↦
            let (f1, files1) = filealloc files0 in
            elim f1 [
              | none ↦ do w' ← fileclose sb a (record w { files = files0 }); ok (none, w')
              | some b ↦ elim page [
                | none ↦ do
                  w1 ← fileclose sb a (record w { files = files1 })
                  w2 ← fileclose sb b w1
                  ok (none, w2)
                | some junk ↦ do
                  let i : ℕ = length w.pipes
                  w1 ← update_file a (pipe_end i true) (record w { files = files1 })
                  w2 ← update_file b (pipe_end i false) w1
                  ok (some (a, b), record w2 { pipes = w.pipes ++ (pipealloc junk ∷ []) })
              ]
            ]
      ]

  -- The two files of a pipe that got no descriptors are closed.
  abbrev close_both : ℕ → ℕ → Sys → Result (ℤ × Sys)
  close_both a b s = do
    w1 ← fileclose sb a s.files
    w2 ← fileclose sb b w1
    ok (minus_one, record s { files = w2 })

  unfoldable pub sys_pipe : Option (List ℕ) → Sys → Result (ℤ × Sys)
  unfolding argptr pipealloc_files fdalloc
  sys_pipe page s = elim (argptr 0 (pos 8) (s.proc, s.mem)) [
    | none ↦ ok (minus_one, s)
    | some fd ↦ do
      (both, w) ← pipealloc_files page s.files
      elim both [
        | none ↦ ok (minus_one, record s { files = w })
        | some (rf, wf) ↦
            let (fd0, p0) = fdalloc rf s.proc in
            elim fd0 [
              | none ↦ close_both rf wf (record s { files = w })
              | some a ↦
                  let (fd1, p1) = fdalloc wf p0 in
                  elim fd1 [
                    | none ↦
                        close_both rf wf
                          (record s { proc = record p0 { ofile = set p0.ofile a none }; files = w })
                    | some b ↦ ok (
                      pos 0,
                      record s { proc = p1; mem = store_words s.mem fd (a ∷ b ∷ []); files = w },
                    )
                  ]
            ]
      ]
  ]

-- `MAXARG`
abbrev pub maxarg : ℕ
maxarg = 32

-- The loop of `sys_exec` with the entries of `argv` left: the arguments' addresses and lengths.
unfoldable pub exec_args : ℕ → ℕ → Proc × Mem → Option (List (ℕ × ℕ))
exec_args zero uargv t = none
exec_args (suc left) uargv t =
    let rest : Option (List (ℕ × ℕ)) = exec_args left (add32 uargv 4) t in
    elim (fetchint uargv t) [
      | none ↦ none
      | some uarg ↦ if uarg == 0 then some [] else elim (fetchstr uarg t) [
        | none ↦ none
        | some len ↦ elim rest [ none ↦ none | some args ↦ some ((uarg, len) ∷ args) ]
      ]
    ]

-- What `sys_exec` passes to `exec`: the path and the arguments; none is the result -1.
unfoldable pub sys_exec_args : Proc × Mem → Option ((ℕ × ℕ) × List (ℕ × ℕ))
unfolding argstr argint exec_args
sys_exec_args t = elim (argstr 0 t) [
  | none ↦ none
  | some path ↦ elim (argint 1 t) [
    | none ↦ none
    | some uargv ↦ elim (exec_args maxarg uargv t) [ none ↦ none | some args ↦ some (path, args) ]
  ]
]
