-- ===== src/Fs/Inodes/Cache.antt =====
-- fs.c: the inode cache has one entry for each inode in use.
use os.Base.{
  ℕ, zero, suc, ◌+◌, ◌≡◌, ◌≢◌, refl, sym, ap, ◌∙◌, ◌⊎◌, inl, inr, Bool, true, false, ◌&&◌, Option,
  none, some, List, [], ◌∷◌, ◌==◌, ltb, get_elem?, set, arith, Bool-cases,
}
use mathlib.Core.Path.{subst}
use os.Base.Result.{Result, ok, panic, ok-injective}
use os.Fs.{Inode, Fs}
use os.Fs.Inodes.{Scanned, cached, missing, first_empty, scan_cache, idup, iget, get_inode_at}

-- The entry is in use, for this inode.
abbrev pub is_entry : ℕ → Inode → Bool
is_entry inum p = ltb 0 p.ref && p.inum == inum

-- The inode is in no entry that is in use.
abbrev pub NotCached : ℕ → List Inode → Type 0
NotCached inum [] = Unit {0}
NotCached inum (p ∷ ps) = (is_entry inum p ≡ false) × NotCached inum ps

-- No inode is in two entries that are in use.
abbrev pub IsOnce : List Inode → Type 0
IsOnce [] = Unit {0}
IsOnce (p ∷ ps) = ((p.ref ≡ 0) ⊎ NotCached p.inum ps) × IsOnce ps

-- All entries are in use.
abbrev pub IsFull : List Inode → Type 0
IsFull [] = Unit {0}
IsFull (p ∷ ps) = (p.ref ≢ 0) × IsFull ps

-- What the scan of the entries `ps` from index `i` on finds.
abbrev Finds : ℕ → List Inode → ℕ → Option ℕ → Scanned → Type 0
Finds inum ps i empty (cached j) =
    (k : ℕ) × (p : Inode) × (j ≡ i + k) × (get_elem? ps k ≡ some p) × (is_entry inum p ≡ true)
Finds inum ps i empty (missing none) = NotCached inum ps × IsFull ps × (empty ≡ none)
Finds inum ps i empty (missing (some j)) =
    NotCached inum ps
    × ((empty ≡ some j)
        ⊎ ((k : ℕ) × (p : Inode) × (j ≡ i + k) × (get_elem? ps k ≡ some p) × (p.ref ≡ 0)))

Finds-cons :
    (inum : ℕ) (p : Inode) (ps : List Inode) (i : ℕ) (empty : Option ℕ) (r : Scanned)
    → is_entry inum p ≡ false
    → Finds inum ps (i + 1) (first_empty empty i p) r
    → Finds inum (p ∷ ps) i empty r
Finds-cons inum p ps i empty (cached j) other (k, q, e, at, yes_in) =
    (suc k, q, omega (arith, e), at, yes_in)
Finds-cons inum p ps i none (missing none) other (miss, full, e) =
    ((other, miss), (ground arith, full), refl)
Finds-cons inum p ps i (some j) (missing none) other (miss, full, e) = absurd (ground arith)
Finds-cons inum p ps i none (missing (some j)) other (miss, inl e) =
    ((other, miss), inr (0, p, ground arith, refl, ground arith))
Finds-cons inum p ps i (some e') (missing (some j)) other (miss, inl e) = ((other, miss), inl e)
Finds-cons inum p ps i empty (missing (some j)) other (miss, inr (k, q, e, at, free)) =
    ((other, miss), inr (suc k, q, omega (arith, e), at, free))

scan_cache_lem :
    (inum : ℕ) (ps : List Inode) (i : ℕ) (empty : Option ℕ)
    → Finds inum ps i empty (scan_cache inum ps i empty)
unfolding scan_cache
scan_cache_lem inum [] i none = (tt, tt, refl)
scan_cache_lem inum [] i (some j) = (tt, inl refl)
scan_cache_lem inum (p ∷ ps) i empty = elim (Bool-cases (is_entry inum p)) [
  | inl here ↦ rw here (0, p, omega arith, refl, here)
  | inr other ↦ rw other (
      Finds-cons inum p ps i empty (scan_cache inum ps (i + 1) (first_empty empty i p)) other
        (scan_cache_lem inum ps (i + 1) (first_empty empty i p)))
]

NotCached-get :
    (inum : ℕ) (ps : List Inode) (k : ℕ) (p : Inode)
    → NotCached inum ps
    → get_elem? ps k ≡ some p
    → is_entry inum p ≡ false
NotCached-get inum [] k p h at = absurd (ground arith)
NotCached-get inum (q ∷ ps) zero p h at = ground arith
NotCached-get inum (q ∷ ps) (suc k) p h at = NotCached-get inum ps k p h.1 at

NotCached-set :
    (inum : ℕ) (ps : List Inode) (k : ℕ) (q : Inode)
    → NotCached inum ps
    → is_entry inum q ≡ false
    → NotCached inum (set ps k q)
NotCached-set inum [] k q h other = tt
NotCached-set inum (p ∷ ps) zero q h other = (other, h.1)
NotCached-set inum (p ∷ ps) (suc k) q h other = (h.0, NotCached-set inum ps k q h.1 other)

-- A new entry for an inode that has none.
IsOnce-add :
    (ps : List Inode) (k : ℕ) (p q : Inode)
    → IsOnce ps
    → get_elem? ps k ≡ some p
    → p.ref ≡ 0
    → NotCached q.inum ps
    → IsOnce (set ps k q)
IsOnce-add [] k p q once at free miss = tt
IsOnce-add (r ∷ ps) zero p q once at free miss = (inr miss.1, once.1)
IsOnce-add (r ∷ ps) (suc k) p q once at free miss = (
  elim once.0 [
    | inl unused ↦ inl unused
    | inr only ↦ elim (Bool-cases (r.ref == 0)) [
      | inl unused ↦ inl (ground arith)
      | inr used ↦ inr (NotCached-set r.inum ps k q only (ground arith))
    ]
  ],
  IsOnce-add ps k p q once.1 at free miss.1,
)

-- One more reference to an entry that is in use.
IsOnce-share :
    (ps : List Inode) (k : ℕ) (p q : Inode)
    → IsOnce ps
    → get_elem? ps k ≡ some p
    → is_entry p.inum p ≡ true
    → q.inum ≡ p.inum
    → IsOnce (set ps k q)
IsOnce-share [] k p q once at used same = tt
IsOnce-share (r ∷ ps) zero p q once at used same = (
  inr (elim once.0 [
    | inl unused ↦ absurd (ground arith)
    | inr only ↦ let e : r.inum ≡ q.inum = ground arith in subst (λ n. NotCached n ps) e only
  ]),
  once.1,
)
IsOnce-share (r ∷ ps) (suc k) p q once at used same = (
  elim once.0 [
    | inl unused ↦ inl unused
    | inr only ↦
        inr (NotCached-set r.inum ps k q only (ground (arith, NotCached-get r.inum ps k p only at)))
  ],
  IsOnce-share ps k p q once.1 at used same,
)

idup_at :
    (j : ℕ) (s : Fs) (p : Inode)
    → get_elem? s.icache j ≡ some p
    → idup j s ≡ ok (j, record s { icache = set s.icache j (record p { ref = p.ref + 1 }) })
unfolding idup
idup_at j s p at = rw (idup, get_inode_at s j p at) refl

-- The outcomes of `iget`.
abbrev pub Gets : ℕ → Fs → Result (ℕ × Fs) → Type 0
Gets inum s r =
    ((k : ℕ) × (p : Inode) × (get_elem? s.icache k ≡ some p)
      × (is_entry inum p ≡ true)
      × (r ≡ ok (k, record s { icache = set s.icache k (record p { ref = p.ref + 1 }) })))
    ⊎ ((NotCached inum s.icache × IsFull s.icache × (r ≡ panic "iget: no inodes"))
        ⊎ ((k : ℕ) × (p : Inode) × NotCached inum s.icache
            × (get_elem? s.icache k ≡ some p)
            × (p.ref ≡ 0)
            × (r
                ≡ ok (
                  k,
                  record s {
                    icache = set s.icache k (record p { inum = inum; ref = 1; valid = false });
                  },
                ))))

-- `iget` on all outcomes: the inode has an entry in use, which gets one more reference; or it has
-- none and takes the place of an entry that is not in use; or all entries are in use for other
-- inodes, and it panics. It changes no other entry and no block.
pub iget_lem : (inum : ℕ) (s : Fs) → Gets inum s (iget inum s)
unfolding iget
iget_lem inum s =
    by_scan (scan_cache inum s.icache 0 none) refl (scan_cache_lem inum s.icache 0 none)
  where
    by_scan :
        (r : Scanned)
        → scan_cache inum s.icache 0 none ≡ r
        → Finds inum s.icache 0 none r
        → Gets inum s (iget inum s)
    by_scan (cached j) e (k, p, e', at, used) =
        let at_j : get_elem? s.icache j ≡ some p =
          ap (get_elem? s.icache) (omega (arith, e')) ∙ at in
        inl (
          j,
          p,
          at_j,
          used,
          let here : idup j s
                  ≡ ok (j, record s { icache = set s.icache j (record p { ref = p.ref + 1 }) }) =
                idup_at j s p at_j in
              rw (iget, e) here,
        )
    by_scan (missing none) e (miss, full, _) = inr (inl (miss, full, rw (iget, e) refl))
    by_scan (missing (some j)) e (miss, inl e') = absurd (ground arith)
    by_scan (missing (some j)) e (miss, inr (k, p, e', at, free)) =
        let at_j : get_elem? s.icache j ≡ some p =
          ap (get_elem? s.icache) (omega (arith, e')) ∙ at in
        inr (inr (j, p, miss, at_j, free, rw (iget, e, get_inode_at s j p at_j) refl))

-- `iget` keeps the inodes in use apart: no inode gets two entries.
pub iget-IsOnce :
    (inum : ℕ) (s : Fs) (k : ℕ) (s' : Fs)
    → IsOnce s.icache
    → iget inum s ≡ ok (k, s')
    → IsOnce s'.icache
iget-IsOnce inum s k s' once e = elim (iget_lem inum s) [
  | inl (j, p, at, used, e') ↦
      rw (ap (λ (x : ℕ × Fs). x.1.icache) (ok-injective (sym e ∙ e')))
        (IsOnce-share s.icache j p (record p { ref = p.ref + 1 }) once at (ground arith) refl)
  | inr (inl (_, _, e')) ↦ absurd (ground (arith, sym e ∙ e'))
  | inr (inr (j, p, miss, at, free, e')) ↦
      rw (ap (λ (x : ℕ × Fs). x.1.icache) (ok-injective (sym e ∙ e'))) (
        IsOnce-add s.icache j p (record p { inum = inum; ref = 1; valid = false }) once at free
          miss)
]
