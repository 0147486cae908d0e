-- ===== src/File/Refs.antt =====
-- file.c: the reference counts of open files.
use os.Base.{
  ℕ, zero, suc, ◌+◌, ◌-◌, ◌<◌, ◌≡◌, ◌≢◌, refl, sym, ap, ◌∙◌, ◌⊎◌, inl, inr, true, false, none, some,
  List, [], ◌∷◌, ◌==◌, ltb, get_elem?, set, arith, Bool-cases, Option-cases, length,
  get_elem?-set_self, get_elem?-lt, set-get_elem?, set-set,
}
use os.Base.Result.{ok}
use os.Fs.{SuperBlock}
use os.File.{File, Files, find_free, filealloc, filedup, drop_ref, fileclose}

-- No file of the table below index `n` is free.
abbrev pub AreUsedBelow : ℕ → List File → Type 0
AreUsedBelow n files = (k : ℕ) (f : File) → k < n → get_elem? files k ≡ some f → f.ref ≢ 0

cons-AreUsedBelow :
    (n : ℕ) (f : File) (files : List File)
    → f.ref ≢ 0
    → AreUsedBelow n files
    → AreUsedBelow (suc n) (f ∷ files)
cons-AreUsedBelow n f files used rest zero g before e =
    let same : f ≡ g = ground arith in λ z. used (ap (λ (h : File). h.ref) same ∙ z)
cons-AreUsedBelow n f files used rest (suc k) g before e = rest k g (omega arith) e

find_free_lem :
    (files : List File) (i : ℕ)
    → ((find_free i files ≡ none) × AreUsedBelow (length files) files)
      ⊎ ((k : ℕ) × (f : File) × (find_free i files ≡ some (i + k, f))
          × (get_elem? files k ≡ some f)
          × (f.ref ≡ 0)
          × AreUsedBelow k files)
unfolding find_free
find_free_lem [] i = inl (refl, λ k f before e. omega arith)
find_free_lem (f ∷ files) i = elim (Bool-cases (f.ref == 0)) [
  | inl free ↦ inr (
    0,
    f,
    (let z : i + 0 ≡ i = omega arith in rw (free, z) refl),
    refl,
    ground arith,
    λ k g before e. omega arith,
  )
  | inr used ↦
      let some_ref : f.ref ≢ 0 = ground arith in
      elim (find_free_lem files (i + 1)) [
        | inl (missing, all) ↦
            inl (rw (used) missing, cons-AreUsedBelow (length files) f files some_ref all)
        | inr (k, g, found, at, zero_ref, before) ↦ inr (
          suc k,
          g,
          (let z : i + suc k ≡ i + 1 + k = omega arith in rw (used, z) found),
          at,
          zero_ref,
          cons-AreUsedBelow k f files some_ref before,
        )
      ]
]

-- `filealloc` fails and changes nothing exactly if every entry has references; otherwise it takes the
-- first entry without, gives it one, and leaves the others.
pub filealloc_lem :
    (files : List File)
    → ((filealloc files ≡ (none, files)) × AreUsedBelow (length files) files)
      ⊎ ((k : ℕ) × (f : File) × (filealloc files ≡ (some k, set files k (record f { ref = 1 })))
          × (get_elem? files k ≡ some f)
          × (f.ref ≡ 0)
          × AreUsedBelow k files)
unfolding filealloc
filealloc_lem files = elim (find_free_lem files 0) [
  | inl (missing, all) ↦ inl (rw (filealloc, missing) refl, all)
  | inr (k, f, found, at, zero_ref, before) ↦ inr (
    k,
    f,
    (let z : 0 + k ≡ k = omega arith in rw (filealloc, found, z) refl),
    at,
    zero_ref,
    before,
  )
]

drop_ref-filedup :
    (f : ℕ) (files files' : List File)
    → filedup f files ≡ ok files'
    → drop_ref f files' ≡ ok (none, files)
unfolding filedup drop_ref
drop_ref-filedup f files files' e = elim (Option-cases (get_elem? files f)) [
  | inl missing ↦ absurd (ground arith)
  | inr (p, at) ↦ elim (Bool-cases (ltb p.ref 1)) [
    | inl closed ↦ absurd (ground arith)
    | inr opened ↦
        let q : File = record p { ref = p.ref + 1 } in
        let e' : set files f q ≡ files' = ground arith in
        let at' : get_elem? (set files f q) f ≡ some q =
          get_elem?-set_self files f q (get_elem?-lt files f at) in
        let two : ltb (p.ref + 1) 1 ≡ false = ground arith in
        let more : ltb 0 (p.ref + 1 - 1) ≡ true = ground arith in
        let back : p.ref + 1 - 1 ≡ p.ref = omega arith in
        ap (drop_ref f) (sym e')
        ∙ rw (drop_ref, at', two, more, back)
            (ap (λ l. ok (none, l)) (set-set files f q p ∙ set-get_elem? files f at))
  ]
]

module _ (sb : SuperBlock) where
  -- Closing the file that `filedup` has just given a reference leaves everything as it was before.
  pub fileclose-filedup :
      (f : ℕ) (w : Files) (files' : List File)
      → filedup f w.files ≡ ok files'
      → fileclose sb f (record w { files = files' }) ≡ ok w
  unfolding fileclose filedup drop_ref
  fileclose-filedup f w files' e = rw (fileclose, drop_ref-filedup f w.files files' e) refl
