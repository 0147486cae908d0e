-- ===== src/Proc/Exit/References.antt =====
-- proc.c: `exit` drops the references that `fork` took.
use os.Base.{
  ℕ, zero, suc, ◌+◌, ◌-◌, ◌<◌, ◌≡◌, ◌≢◌, inl, inr, refl, sym, ap, ◌∙◌, false, ◌&&◌, Option, none,
  some, List, [], ◌∷◌, ◌==◌, ltb, get_elem?, set, get_elem?-set_self, get_elem?-set_ne,
  get_elem?-lt, set-set, set-get_elem?, Option-cases, Bool-cases, arith,
}
use os.Base.Result.{ok, >>=-eq-ok, ok-injective}
use os.Fs.{SuperBlock, Inode, Fs}
use os.Fs.Inodes.{get_inode_at, idup, iput}
use os.File.{File, Files, filedup}
use os.File.Refs.{fileclose-filedup}
use os.Proc.{Proc}
use os.Proc.Fork.{dup_files, dup_cwd}
use os.Proc.Table.{exit_table}
use os.Proc.Exit.{close_files, put_cwd, closed, exit}

set_comm :
    {A : Type 0} (xs : List A) (i j : ℕ) (v w : A)
    → i ≢ j
    → set (set xs i v) j w ≡ set (set xs j w) i v
set_comm [] i j v w ne = refl
set_comm (x ∷ xs) zero zero v w ne = absurd (ne refl)
set_comm (x ∷ xs) zero (suc j) v w ne = refl
set_comm (x ∷ xs) (suc i) zero v w ne = refl
set_comm (x ∷ xs) (suc i) (suc j) v w ne =
    ap (λ l. x ∷ l) (set_comm xs i j v w (λ e. ne (ap suc e)))

-- The file with one reference more.
abbrev more : File → File
more p = record p { ref = p.ref + 1 }

abbrev IsDup : ℕ → List File → List File → Type 0
IsDup f files files' =
    (p : File) × (get_elem? files f ≡ some p)
    × (ltb p.ref 1 ≡ false)
    × (files' ≡ set files f (more p))

filedup_inv :
    (f : ℕ) (files files' : List File) → filedup f files ≡ ok files' → IsDup f files files'
unfolding filedup
filedup_inv f files files' h = elim (Option-cases (get_elem? files f)) [
  | inl missing ↦ absurd (ground arith)
  | inr (p, at) ↦ elim (Bool-cases (ltb p.ref 1)) [
    | inl closed ↦ absurd (ground arith)
    | inr opened ↦ (p, at, opened, ground arith)
  ]
]

filedup_at :
    (f : ℕ) (files : List File) (p : File)
    → get_elem? files f ≡ some p
    → ltb p.ref 1 ≡ false
    → filedup f files ≡ ok (set files f (more p))
unfolding filedup
filedup_at f files p at opened = rw (filedup, at, opened) refl

-- Two references are taken in either order.
filedup_swap :
    (f g : ℕ) (a b c : List File)
    → filedup f a ≡ ok b
    → filedup g b ≡ ok c
    → (d : List File) × (filedup g a ≡ ok d) × (filedup f d ≡ ok c)
filedup_swap f g a b c first second = elim (Bool-cases (f == g)) [
  | inl same ↦
      let e : f ≡ g = ground (arith, same) in
      (b, ap (λ (i : ℕ). filedup i a) (sym e) ∙ first, ap (λ (i : ℕ). filedup i b) e ∙ second)
  | inr apart ↦
      let ne : f ≢ g = ground (arith, apart) in
      let (p, at, opened, b_is) = filedup_inv f a b first in
      let (q, at_b, opened', c_is) = filedup_inv g b c second in
      let at' : get_elem? a g ≡ some q =
        sym (get_elem?-set_ne a f g (more p) ne)
        ∙ ap (λ (l : List File). get_elem? l g) (sym b_is)
        ∙ at_b in
      let kept : get_elem? (set a g (more q)) f ≡ some p =
        get_elem?-set_ne a g f (more q) (λ e. ne (sym e)) ∙ at in
      (
        set a g (more q),
        filedup_at g a q at' opened',
        filedup_at f (set a g (more q)) p kept opened
            ∙ ap ok (
                set_comm a g f (more q) (more p) (λ e. ne (sym e))
                ∙ ap (λ (l : List File). set l g (more q)) (sym b_is)
                ∙ sym c_is),
      )
]

dup_files_swap :
    (f : ℕ) (ofile : List (Option ℕ)) (a b c : List File)
    → filedup f a ≡ ok b
    → dup_files ofile b ≡ ok c
    → (d : List File) × (dup_files ofile a ≡ ok d) × (filedup f d ≡ ok c)
unfolding dup_files
dup_files_swap f [] a b c first rest = (a, refl, first ∙ rest)
dup_files_swap f (none ∷ ofile) a b c first rest = dup_files_swap f ofile a b c first rest
dup_files_swap f (some g ∷ ofile) a b c first rest =
    let (b', second, rest') = >>=-eq-ok (filedup g b) (dup_files ofile) {w = c} rest in
    let (a', one, two) = filedup_swap f g a b b' first second in
    let (d, dups, last) = dup_files_swap f ofile a' b' c two rest' in (d, rw (one) dups, last)

module _ (sb : SuperBlock) where
  -- Closing the files that `fork` gave a reference to leaves the file table, the pipes and the
  -- inodes as they were before, also where one file stands in several descriptors.
  pub close_files-dup_files :
      (ofile : List (Option ℕ)) (w : Files) (files' : List File)
      → dup_files ofile w.files ≡ ok files'
      → close_files sb ofile (record w { files = files' }) ≡ ok w
  unfolding dup_files close_files
  close_files-dup_files [] w files' h =
      ap (λ (l : List File). ok (record w { files = l })) (sym (ok-injective h))
  close_files-dup_files (none ∷ ofile) w files' h = close_files-dup_files ofile w files' h
  close_files-dup_files (some f ∷ ofile) w files' h =
      let (b, first, rest) = >>=-eq-ok (filedup f w.files) (dup_files ofile) {w = files'} h in
      let (d, dups, last) = dup_files_swap f ofile w.files b files' first rest in
      rw (fileclose-filedup sb f (record w { files = d }) files' last)
        (close_files-dup_files ofile w d dups)

  -- The last reference is not dropped, so the inode stays.
  put_cwd-dup_cwd :
      (ip : ℕ) (fs fs' : Fs) (p : Inode)
      → get_elem? fs.icache ip ≡ some p
      → 0 < p.ref
      → dup_cwd (some ip) fs ≡ ok fs'
      → put_cwd sb (some ip) fs' ≡ ok fs
  unfolding idup iput
  put_cwd-dup_cwd ip fs fs' p at held h =
      let q : Inode = record p { ref = p.ref + 1 } in
      let one : Fs = record fs { icache = set fs.icache ip q } in
      let taken : ok one ≡ ok fs' = rw (get_inode_at fs ip p at) at h in
      let same : fs' ≡ one = sym (ok-injective taken) in
      let at_q : get_elem? (set fs.icache ip q) ip ≡ some q =
        get_elem?-set_self fs.icache ip q (get_elem?-lt fs.icache ip at) in
      let stays : (p.valid && p.nlink == 0 && p.ref + 1 == 1) ≡ false = ground arith in
      let back : p.ref + 1 - 1 ≡ p.ref = omega arith in
      ap (put_cwd sb (some ip)) same
      ∙ rw (get_inode_at one ip q at_q, stays, get_inode_at one ip q at_q, back)
          (ap (λ (l : List Inode). ok (record fs { icache = l }))
            (set-set fs.icache ip q p ∙ set-get_elem? fs.icache ip at))

  -- If an inode is held as the current directory, `exit` of a process other than init leaves the
  -- open files and the inodes as they were before `fork` took the process's references to them.
  pub exit-fork_references :
      (cur initproc ip : ℕ) (curproc : Proc) (procs : List Proc) (w : Files) (files' : List File)
      (fs' : Fs) (p : Inode)
      → cur ≢ initproc
      → curproc.cwd ≡ some ip
      → get_elem? w.fs.icache ip ≡ some p
      → 0 < p.ref
      → dup_files curproc.ofile w.files ≡ ok files'
      → dup_cwd curproc.cwd w.fs ≡ ok fs'
      → exit sb cur initproc curproc procs (record w { files = files'; fs = fs' })
        ≡ ok (exit_table cur initproc (closed curproc) (set procs cur (closed curproc)), w)
  unfolding exit
  exit-fork_references cur initproc ip curproc procs w files' fs' p other home at held files dir =
      let not_init : (cur == initproc) ≡ false = ground (arith, other) in
      let closes : close_files sb curproc.ofile (record w { files = files'; fs = fs' })
          ≡ ok (record w { fs = fs' }) =
        close_files-dup_files curproc.ofile (record w { fs = fs' }) files' files in
      let leaves : put_cwd sb curproc.cwd fs' ≡ ok w.fs =
        ap (λ (c : Option ℕ). put_cwd sb c fs') home
        ∙ put_cwd-dup_cwd ip w.fs fs' p at held
            (ap (λ (c : Option ℕ). dup_cwd c w.fs) (sym home) ∙ dir) in
      rw (exit, not_init, closes, leaves) refl
