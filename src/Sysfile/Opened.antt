-- ===== src/Sysfile/Opened.antt =====
-- sysfile.c: what `sys_open` opens without `O_CREATE`.
use os.Base.{
  ℕ, ◌≡◌, inl, inr, refl, sym, ap, ◌∙◌, false, not, ◌&&◌, Option, none, some, List, ◌==◌,
  if◌then◌else◌, get_elem?, bit_and, Option-cases, Bool-cases, arith,
}
use os.Base.Result.{Result, ok, panic, fault, ok-injective}
use os.Fs.{SuperBlock, Inode, Fs, M, pure, then_run, ◌>>◌}
use os.Fs.Inodes.{get_inode, ilock, iput}
use os.Fs.Content.{Device, t_dir, namex}
use os.Sysfile.Paths.{o_create, open_found, open_inode}

-- A run of two routines that ended had a first that ended.
then_run_inv :
    {A B : Type 0} (f : A → M B) (r : Result (A × Fs)) (y : B × Fs)
    → then_run f r ≡ ok y
    → (x : A × Fs) × (r ≡ ok x) × (f x.0 x.1 ≡ ok y)
then_run_inv f (ok x) y h = (x, refl, h)
then_run_inv f (panic message) y h = cc
then_run_inv f fault y h = cc

get_inode_inv :
    (ip : ℕ) (s : Fs) (x : Inode × Fs)
    → get_inode ip s ≡ ok x
    → (get_elem? s.icache ip ≡ some (x.0)) × (x.1 ≡ s)
unfolding get_inode
get_inode_inv ip s x h = elim (Option-cases (get_elem? s.icache ip)) [
  | inl missing ↦
      let e : ◌≡◌ {A = Result (Inode × Fs)} fault (ok x) = rw (get_inode, missing) at h in
      absurd (ground (arith, e))
  | inr (p, at) ↦
      let e : ◌≡◌ {A = Result (Inode × Fs)} (ok (p, s)) (ok x) = rw (get_inode, at) at h in
      let same : ◌≡◌ {A = Inode × Fs} (p, s) x = ok-injective e in
      (at ∙ ap (λ (y : Inode × Fs). some (y.0)) same, ap (λ (y : Inode × Fs). y.1) (sym same))
]

module _ (sb : SuperBlock) (devsw : ℕ → Option Device) where
  -- A directory is only opened with the mode 0.
  abbrev pub ReadOnly : ℕ → ℕ → Fs → Type 0
  ReadOnly ip omode s =
      (q : Inode) × (get_elem? s.icache ip ≡ some q) × (q.type ≡ t_dir → omode ≡ 0)

  check_mode-ReadOnly :
      (omode i ip : ℕ) (p : Inode) (s t : Fs)
      → get_elem? s.icache i ≡ some p
      → (if p.type == t_dir && not (omode == 0) then (do iput sb i; pure none) else pure (some i)) s
        ≡ ok (some ip, t)
      → ReadOnly ip omode t
  check_mode-ReadOnly omode i ip p s t at h =
      elim (Bool-cases (p.type == t_dir && not (omode == 0))) [
        | inl refused ↦
            let ((u, s'), put, e) =
              then_run_inv {B = Option ℕ} (λ u. pure none) (iput sb i s) (some ip, t)
                (rw (refused) at h) in
            absurd (ground (arith, e))
        | inr allowed ↦
            let e : ◌≡◌ {A = Option ℕ × Fs} (some i, s) (some ip, t) =
              ok-injective (rw (allowed) at h) in
            let one : ip ≡ i = ground (arith, e) in
            let two : t ≡ s = ground (arith, e) in
            (p, (λ k. get_elem? (two k).icache (one k)) ∙ at, λ dir. ground (arith, allowed, dir))
      ]

  open_found-ReadOnly :
      (omode ip : ℕ) (found : Option (ℕ × List ℕ)) (s t : Fs)
      → open_found sb devsw omode found s ≡ ok (some ip, t)
      → ReadOnly ip omode t
  open_found-ReadOnly omode ip none s t h = absurd (ground (arith, h))
  open_found-ReadOnly omode ip (some (i, last)) s t h =
      let ((u, s1), locked, h1) = then_run_inv _ (ilock sb i s) (some ip, t) h in
      let ((p, s2), got, h2) = then_run_inv _ (get_inode i s1) (some ip, t) h1 in
      let (at, same) = get_inode_inv i s1 (p, s2) got in
      check_mode-ReadOnly omode i ip p s2 t (ap (λ (x : Fs). get_elem? x.icache i) same ∙ at) h2

  pub open_inode-ReadOnly :
      (cwd : ℕ) (path : List ℕ) (omode ip : ℕ) (s t : Fs)
      → bit_and omode o_create ≡ 0
      → open_inode sb devsw cwd path omode s ≡ ok (some ip, t)
      → ReadOnly ip omode t
  unfolding open_inode
  open_inode-ReadOnly cwd path omode ip s t plain h =
      let no_create : not (bit_and omode o_create == 0) ≡ false = ground (arith, plain) in
      let ((found, s1), walked, h1) =
        then_run_inv (λ found. open_found sb devsw omode found) (namex sb devsw cwd false path s)
          (some ip, t) (rw (open_inode, no_create) at h) in
      open_found-ReadOnly omode ip found s1 t h1
