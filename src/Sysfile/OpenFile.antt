-- ===== src/Sysfile/OpenFile.antt =====
-- sysfile.c: the file and the descriptor that `sys_open` makes.
use os.Base.{
  ℕ, ◌≡◌, inl, inr, sym, ap, ◌∙◌, Option, none, some, List, get_elem?, set, get_elem?-set_self,
  get_elem?-lt, Option-cases, arith,
}
use os.Base.Int.{pos}
use os.Base.Result.{Result, ok, fault, >>=-eq-ok, ok-injective}
use os.Fs.{SuperBlock}
use os.Fs.Inodes.{iput}
use os.Fs.Content.{Device}
use os.File.{File, Files, fileclose, get_file}
use os.Sysfile.{Sys, fdalloc, update_file}
use os.Sysfile.Calls.{on_fs, no_descriptor, opened, open_slot, open_entry}
use os.Sysfile.Descriptors.{fdalloc_lem}

module _ (sb : SuperBlock) (devsw : ℕ → Option Device) where
  -- The file at the descriptor `d` is open for the inode.
  abbrev pub Holds : ℕ → ℕ → ℕ → Sys → Sys → Type 0
  Holds ip omode d s t =
      (a : ℕ) × (f : File) × (get_elem? t.proc.ofile d ≡ some (some a))
      × (get_elem? t.files.files a ≡ some (opened sb devsw ip omode f))
      × (t.files.fs ≡ s.files.fs)

  iput_fails : (ip d : ℕ) (s t : Sys) → no_descriptor sb devsw none ip s ≡ ok (pos d, t) → ⊥
  iput_fails ip d s t h =
      let (x, e, h1) = >>=-eq-ok (on_fs s (iput sb ip)) _ {w = (pos d, t)} h in ground (arith, h1)

  no_descriptor_fails :
      (a : Option ℕ) (ip d : ℕ) (s t : Sys) → no_descriptor sb devsw a ip s ≡ ok (pos d, t) → ⊥
  no_descriptor_fails none ip d s t h = iput_fails ip d s t h
  no_descriptor_fails (some f) ip d s t h =
      let (w, e, h1) = >>=-eq-ok (fileclose sb f s.files) _ {w = (pos d, t)} h in
      iput_fails ip d (record s { files = w }) t h1

  get_file_inv : (a : ℕ) (w : Files) (f : File) → get_file a w ≡ ok f → get_elem? w.files a ≡ some f
  get_file_inv a w f h = elim (Option-cases (get_elem? w.files a)) [
    | inl missing ↦
        let e : ◌≡◌ {A = Result File} fault (ok f) = rw (get_file, missing) at h in
        absurd (ground (arith, e))
    | inr (g, at) ↦
        let e : ◌≡◌ {A = Result File} (ok g) (ok f) = rw (get_file, at) at h in
        at ∙ ap some (ok-injective e)
  ]

  update_file_inv :
      (a : ℕ) (change : File → File) (w w' : Files)
      → update_file a change w ≡ ok w'
      → (f : File) × (get_elem? w.files a ≡ some f)
        × (w' ≡ record w { files = set w.files a (change f) })
  update_file_inv a change w w' h =
      let (f, got, e) = >>=-eq-ok (get_file a w) _ {w = w'} h in
      (f, get_file_inv a w f got, sym (ok-injective e))

  open_slot-Holds :
      (ip omode a d : ℕ) (s t : Sys)
      → open_slot sb devsw ip omode a (fdalloc a s.proc) s ≡ ok (pos d, t)
      → Holds ip omode d s t
  open_slot-Holds ip omode a d s t h = elim (fdalloc_lem a s.proc) [
    | inl (all, used) ↦ absurd (no_descriptor_fails (some a) ip d s t (rw (all) at h))
    | inr (k, taken, free, before) ↦
        let (w, updated, e) =
          >>=-eq-ok (update_file a (opened sb devsw ip omode) s.files) _ {w = (pos d, t)}
            (rw (taken) at h) in
        let (f, at, table) = update_file_inv a (opened sb devsw ip omode) s.files w updated in
        let one : d ≡ k = ground (arith, e) in
        let two : t ≡ record s {
          proc = record (s.proc) { ofile = set s.proc.ofile k (some a) };
          files = w;
        } =
          ground (arith, e) in
        (
          a,
          f,
          (λ i. get_elem? (two i).proc.ofile (one i))
              ∙ get_elem?-set_self s.proc.ofile k (some a) (get_elem?-lt s.proc.ofile k free),
          (λ i. get_elem? (two i).files.files a)
              ∙ (λ i. get_elem? (table i).files a)
              ∙ get_elem?-set_self s.files.files a (opened sb devsw ip omode f)
                  (get_elem?-lt s.files.files a at),
          (λ i. (two i).files.fs) ∙ (λ i. (table i).fs),
        )
  ]

  pub open_entry-Holds :
      (ip omode d : ℕ) (r : Option ℕ × List File) (s t : Sys)
      → open_entry sb devsw ip omode r s ≡ ok (pos d, t)
      → Holds ip omode d s t
  open_entry-Holds ip omode d (none, files') s t h =
      absurd (
        no_descriptor_fails none ip d (record s { files = record (s.files) { files = files' } }) t
          h)
  open_entry-Holds ip omode d (some a, files') s t h =
      open_slot-Holds ip omode a d (record s { files = record (s.files) { files = files' } }) t h
