-- ===== src/Sysfile/Open.antt =====
-- sysfile.c: `sys_open` gives no file to write a directory.
use os.Base.{
  ℕ, ◌≡◌, inl, inr, refl, ◌∙◌, false, Option, none, some, List, get_elem?, bit_and, Option-cases,
  arith,
}
use os.Base.Int.{ℤ, pos, minus_one}
use os.Base.Result.{Result, ok, >>=-eq-ok}
use os.Fs.{SuperBlock, Inode}
use os.Fs.Content.{Device, t_dir}
use os.File.{fd_inode, File, filealloc}
use os.Syscall.{argint}
use os.Sysfile.{Sys}
use os.Sysfile.Paths.{o_create, open_inode}
use os.Sysfile.Calls.{open_result, open_path, on_fs, arg_path, cwd_of, opened, open_file, sys_open}
use os.Sysfile.Opened.{ReadOnly, open_inode-ReadOnly}
use os.Sysfile.OpenFile.{Holds, open_entry-Holds}

module _ (sb : SuperBlock) (devsw : ℕ → Option Device) where
  -- The descriptor `d` is open for an inode, and not for writing if that is a directory.
  abbrev pub Safe : ℕ → Sys → Type 0
  Safe d t =
      (a : ℕ) × (f : File) × (q : Inode) × (get_elem? t.proc.ofile d ≡ some (some a))
      × (get_elem? t.files.files a ≡ some f)
      × (f.type ≡ fd_inode)
      × (get_elem? t.files.fs.icache f.ip ≡ some q)
      × (q.type ≡ t_dir → f.writable ≡ false)

  Holds-Safe :
      (ip omode d : ℕ) (s t : Sys)
      → ReadOnly sb devsw ip omode s.files.fs
      → Holds sb devsw ip omode d s t
      → Safe d t
  Holds-Safe ip omode d s t (q, at, read_only) (a, f, slot, file, same) = (
    a,
    opened sb devsw ip omode f,
    q,
    slot,
    file,
    refl,
    (λ i. get_elem? (same i).icache ip) ∙ at,
    λ dir. let zero_mode : omode ≡ 0 = read_only dir in rw (zero_mode) refl,
  )

  open_result-Safe :
      (path : List ℕ) (omode d cwd : ℕ) (found : Option ℕ) (s s1 t : Sys)
      → bit_and omode o_create ≡ 0
      → on_fs s (open_inode sb devsw cwd path omode) ≡ ok (found, s1)
      → open_result sb devsw omode found s1 ≡ ok (pos d, t)
      → Safe d t
  unfolding open_file
  open_result-Safe path omode d cwd none s s1 t plain ran h = absurd (ground (arith, h))
  open_result-Safe path omode d cwd (some ip) s s1 t plain ran h =
      let ((found, fs'), e, h1) =
        >>=-eq-ok (open_inode sb devsw cwd path omode s.files.fs) _ {w = (some ip, s1)} ran in
      let one : found ≡ some ip = ground (arith, h1) in
      let two : fs' ≡ s1.files.fs = ground (arith, h1) in
      Holds-Safe ip omode d s1 t
        (open_inode-ReadOnly sb devsw cwd path omode ip s.files.fs s1.files.fs plain
          (e ∙ (λ i. ok (one i, two i))))
        (open_entry-Holds sb devsw ip omode d (filealloc s1.files.files) s1 t h)

  open_path-Safe :
      (path : List ℕ) (omode d : ℕ) (s t : Sys)
      → bit_and omode o_create ≡ 0
      → open_path sb devsw path omode s ≡ ok (pos d, t)
      → Safe d t
  unfolding open_path
  open_path-Safe path omode d s t plain h =
      let (cwd, e, h1) = >>=-eq-ok (cwd_of s) _ {w = (pos d, t)} h in
      let ((found, s1), ran, h2) =
        >>=-eq-ok (on_fs s (open_inode sb devsw cwd path omode)) _ {w = (pos d, t)} h1 in
      open_result-Safe path omode d cwd found s s1 t plain ran h2

  -- Without O_CREATE, an open that gives a descriptor gives one of an open file on an inode, which
  -- cannot be written through it if it is a directory.
  pub sys_open-Safe :
      (s t : Sys) (omode d : ℕ)
      → argint 1 (s.proc, s.mem) ≡ some omode
      → bit_and omode o_create ≡ 0
      → sys_open sb devsw s ≡ ok (pos d, t)
      → (a : ℕ) × (f : File) × (q : Inode) × (get_elem? t.proc.ofile d ≡ some (some a))
        × (get_elem? t.files.files a ≡ some f)
        × (f.type ≡ fd_inode)
        × (get_elem? t.files.fs.icache f.ip ≡ some q)
        × (q.type ≡ t_dir → f.writable ≡ false)
  unfolding sys_open
  sys_open-Safe s t omode d arg plain h = elim (Option-cases (arg_path 0 s)) [
    | inl bad ↦
        let e : ◌≡◌ {A = Result (ℤ × Sys)} (ok (minus_one, s)) (ok (pos d, t)) =
          rw (sys_open, bad) at h in
        absurd (ground (arith, e))
    | inr (path, given) ↦ open_path-Safe path omode d s t plain (rw (sys_open, given, arg) at h)
  ]
