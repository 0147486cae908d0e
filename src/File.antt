-- ===== src/File.antt =====
-- file.c and file.h: open files, on top of pipes and inodes. A `struct file*` is an index of the
-- file table, a `struct pipe*` one of `pipes`. On a pipe a call is modelled as the section up to its
-- return or next sleep. The calls of `begin_op` and `end_op` around the accesses to inodes, which
-- change nothing here, are in Log/Space.
pub mod Refs
mod Tests
use os.Base.{
  ℕ, zero, suc, ◌+◌, ◌-◌, ◌*◌, ◌/◌, Bool, true, false, not, Option, none, some, List, [], ◌∷◌, ◌==◌,
  ltb, if◌then◌else◌, get_elem?, set, take, drop, length, min,
}
use os.Base.Result.{Result, ok, panic, fault, ◌>>=◌, ◌>>◌}
use os.Machine.{add32}
use os.Fs.{SuperBlock, Fs, M}
use os.Fs.Inodes.{ilock, iput}
use os.Fs.Content.{Device, readi, writei}
use os.Pipe.{Pipe, End, Outcome, returns, fails, sleeps, Section, piperead, pipewrite, pipeclose}
use os.Log.Space.{maxopblocks}

pub data FileType : Type 0 where
  fd_none fd_pipe fd_inode : FileType

pub record File : Type 0 where
  pub type : FileType
  pub ref : ℕ
  pub readable : Bool
  pub writable : Bool
  pub pipe : ℕ
  pub ip : ℕ
  pub off : ℕ

pub record Files : Type 0 where
  pub files : List File
  pub pipes : List Pipe
  pub fs : Fs

-- The first entry with no references, from the index `i` on.
unfoldable pub find_free : ℕ → List File → Option (ℕ × File)
find_free i [] = none
find_free i (f ∷ fs) =
    let rest : Option (ℕ × File) = find_free (i + 1) fs in if f.ref == 0 then some (i, f) else rest

-- None is the null pointer.
unfoldable pub filealloc : List File → Option ℕ × List File
unfolding find_free
filealloc files = elim (find_free 0 files) [
  | none ↦ (none, files)
  | some (i, f) ↦ (some i, set files i (record f { ref = 1 }))
]

unfoldable pub filedup : ℕ → List File → Result (List File)
filedup f files = elim (get_elem? files f) [
  | none ↦ fault
  | some p ↦
      if ltb p.ref 1 then panic "filedup" else ok (set files f (record p { ref = p.ref + 1 }))
]

-- The table part of `fileclose`: the copy of a file whose last reference this was.
unfoldable pub drop_ref : ℕ → List File → Result (Option File × List File)
drop_ref f files = elim (get_elem? files f) [
  | none ↦ fault
  | some p ↦
      if ltb p.ref 1
      then panic "fileclose"
      else if ltb 0 (p.ref - 1)
      then ok (none, set files f (record p { ref = p.ref - 1 }))
      else ok (some (record p { ref = 0 }), set files f (record p { ref = 0; type = fd_none }))
]

abbrev on_fs {ℓ} : {A : Type ℓ} → Files → Result (A × Fs) → Result (A × Files)
on_fs w r = r >>= (λ (a, fs'). ok (a, record w { fs = fs' }))

-- A file of the table, or a fault.
abbrev pub get_file : ℕ → Files → Result File
get_file f w = elim (get_elem? w.files f) [ none ↦ fault | some p ↦ ok p ]

abbrev get_pipe : ℕ → Files → Result Pipe
get_pipe i w = elim (get_elem? w.pipes i) [ none ↦ fault | some p ↦ ok p ]

abbrev put_file : ℕ → File → Files → Files
put_file f p w = record w { files = set w.files f p }

abbrev put_pipe : ℕ → Pipe → Files → Files
put_pipe i p w = record w { pipes = set w.pipes i p }

module _ (sb : SuperBlock) where
  unfoldable pub fileclose : ℕ → Files → Result Files
  unfolding drop_ref
  fileclose f w = do
    (last, files') ← drop_ref f w.files
    let w' : Files = record w { files = files' }
    elim last [
      | none ↦ ok w'
      | some ff ↦ elim ff.type [
        | fd_none ↦ ok w'
        | fd_pipe ↦ do p ← get_pipe ff.pipe w'; ok (put_pipe ff.pipe (pipeclose p ff.writable).0 w')
        | fd_inode ↦ do (done, w'') ← on_fs w' (iput sb ff.ip w'.fs); ok w''
      ]
    ]

-- How many bytes one transaction may write.
abbrev pub max_write : ℕ
max_write = (maxopblocks - 1 - 1 - 2) / 2 * 512

module _ (sb : SuperBlock) (devsw : ℕ → Option Device) where
  -- `killed` is the flag of the calling process.
  unfoldable pub fileread : Bool → ℕ → ℕ → Files → Result (Outcome (List ℕ) × Files)
  fileread killed f n w = do
    p ← get_file f w
    if not p.readable then ok (fails, w) else elim p.type [
      | fd_none ↦ panic "fileread"
      | fd_pipe ↦ do
        pipe ← get_pipe p.pipe w
        let s : Section (List ℕ) = piperead killed pipe n
        ok (s.outcome, put_pipe p.pipe s.pipe w)
      | fd_inode ↦ do
        (locked, w1) ← on_fs w (ilock sb p.ip w.fs)
        (r, w2) ← on_fs w1 (readi sb devsw p.ip p.off n w1.fs)
        elim r [
          | none ↦ ok (fails, w2)
          | some bytes ↦
              ok (returns bytes, put_file f (record p { off = add32 p.off (length bytes) }) w2)
        ]
    ]

  -- The loop of `filewrite` on the bytes left: whether all were written.
  unfoldable pub write_parts : ℕ → ℕ → List ℕ → Files → Result (Bool × Files)
  write_parts zero f src w = if length src == 0 then ok (true, w) else fault
  write_parts (suc fuel) f src w =
      let n1 : ℕ = min (length src) max_write in
      let next : List ℕ → Files → Result (Bool × Files) = write_parts fuel f in
      if length src == 0 then ok (true, w) else (do
        p ← get_file f w
        (locked, w1) ← on_fs w (ilock sb p.ip w.fs)
        (r, w2) ← on_fs w1 (writei sb devsw p.ip p.off (take n1 src) w1.fs)
        elim r [
          | none ↦ ok (false, w2)
          | some m ↦
              let w3 : Files = put_file f (record p { off = add32 p.off m }) w2 in
              if m == n1 then next (drop n1 src) w3 else panic "short filewrite"
        ])

  unfoldable pub filewrite : Bool → ℕ → List ℕ → Files → Result (Outcome ℕ × Files)
  unfolding write_parts
  filewrite killed f src w = do
    p ← get_file f w
    if not p.writable then ok (fails, w) else elim p.type [
      | fd_none ↦ panic "filewrite"
      | fd_pipe ↦ do
        pipe ← get_pipe p.pipe w
        let s : Section ℕ = pipewrite killed (length src) pipe src
        ok (s.outcome, put_pipe p.pipe s.pipe w)
      | fd_inode ↦ do
        (all, w') ← write_parts (length src) f src w
        ok ((if all then returns (length src) else fails), w')
    ]
