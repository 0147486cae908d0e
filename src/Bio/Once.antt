-- ===== src/Bio/Once.antt =====
-- bio.c: the cache has one buffer for each block.
use os.Base.{ℕ, ◌≡◌, refl, ◌⊎◌, inl, inr, false, none, some, List, [], ◌∷◌, ◌==◌, arith, Bool-cases}
use os.Bio.{Buf, is_block, find_buf, update, recycle, has_id, remove}

-- No buffer of the list is for this block.
abbrev pub NotCached : ℕ → ℕ → List Buf → Type 0
NotCached dev blockno [] = Unit {0}
NotCached dev blockno (b ∷ bufs) = (is_block dev blockno b ≡ false) × NotCached dev blockno bufs

-- No block is in two buffers. The fresh buffers are for no device: their `dev` is 0.
abbrev pub IsOnce : List Buf → Type 0
IsOnce [] = Unit {0}
IsOnce (b ∷ bufs) = ((b.dev ≡ 0) ⊎ NotCached b.dev b.blockno bufs) × IsOnce bufs

abbrev pub SameBlock : Buf → Buf → Type 0
SameBlock b c = (b.dev ≡ c.dev) × (b.blockno ≡ c.blockno)

pub find_buf-NotCached :
    (dev blockno : ℕ) (cache : List Buf)
    → find_buf (is_block dev blockno) cache ≡ none
    → NotCached dev blockno cache
unfolding find_buf
find_buf-NotCached dev blockno [] e = tt
find_buf-NotCached dev blockno (b ∷ cache) e = elim (Bool-cases (is_block dev blockno b)) [
  | inl found ↦ absurd (ground arith)
  | inr other ↦ (other, find_buf-NotCached dev blockno cache (ground arith))
]

update-NotCached :
    (dev blockno id : ℕ) (f : Buf → Buf) (cache : List Buf)
    → ((b : Buf)
        → find_buf (has_id id) cache ≡ some b
        → is_block dev blockno b ≡ false
        → is_block dev blockno (f b) ≡ false)
    → NotCached dev blockno cache
    → NotCached dev blockno (update id f cache)
unfolding update find_buf
update-NotCached dev blockno id f [] h n = tt
update-NotCached dev blockno id f (b ∷ cache) h n = elim (Bool-cases (has_id id b)) [
  | inl here ↦ rw (here) (h b (rw (here) refl) n.0, n.1)
  | inr there ↦
      rw (there) (n.0, update-NotCached dev blockno id f cache (λ c e. h c (rw (there) e)) n.1)
]

-- A change that keeps the buffer's block.
pub update-IsOnce :
    (id : ℕ) (f : Buf → Buf) (cache : List Buf)
    → ((b : Buf) → find_buf (has_id id) cache ≡ some b → SameBlock b (f b))
    → IsOnce cache
    → IsOnce (update id f cache)
unfolding update find_buf
update-IsOnce id f [] h once = tt
update-IsOnce id f (b ∷ cache) h once = elim (Bool-cases (has_id id b)) [
  | inl here ↦
      let (same_dev, same_no) = h b (rw (here) refl) in rw (here, ← same_dev, ← same_no) once
  | inr there ↦ rw (there) (
    elim once.0 [
      | inl fresh ↦ inl fresh
      | inr n ↦ inr (
          update-NotCached b.dev b.blockno id f cache
            (λ c e other.
              let (same_dev, same_no) = h c (rw (there) e) in rw (← same_dev, ← same_no) other)
            n)
    ],
    update-IsOnce id f cache (λ c e. h c (rw (there) e)) once.1,
  )
]

pub recycle-IsOnce :
    (dev blockno id : ℕ) (cache : List Buf)
    → NotCached dev blockno cache
    → IsOnce cache
    → IsOnce (update id (recycle dev blockno) cache)
unfolding update
recycle-IsOnce dev blockno id [] n once = tt
recycle-IsOnce dev blockno id (b ∷ cache) n once = elim (Bool-cases (has_id id b)) [
  | inl here ↦ rw (here) (inr n.1, once.1)
  | inr there ↦ rw (there) (
    elim once.0 [
      | inl fresh ↦ inl fresh
      | inr m ↦ inr (
          update-NotCached b.dev b.blockno id (recycle dev blockno) cache
            (λ c e other. ground arith) m)
    ],
    recycle-IsOnce dev blockno id cache n.1 once.1,
  )
]

-- Without the buffer found as `id` the list has one buffer less for its block, and is still once.
remove-NotCached :
    (dev blockno id : ℕ) (cache : List Buf)
    → NotCached dev blockno cache
    → NotCached dev blockno (remove id cache)
unfolding remove
remove-NotCached dev blockno id [] n = tt
remove-NotCached dev blockno id (b ∷ cache) n = elim (Bool-cases (has_id id b)) [
  | inl here ↦ rw (here) n.1
  | inr there ↦ rw (there) (n.0, remove-NotCached dev blockno id cache n.1)
]

NotCached-found :
    (dev blockno id : ℕ) (cache : List Buf) (b : Buf)
    → find_buf (has_id id) cache ≡ some b
    → NotCached dev blockno cache
    → is_block dev blockno b ≡ false
unfolding find_buf
NotCached-found dev blockno id [] b e n = absurd (ground arith)
NotCached-found dev blockno id (c ∷ cache) b e n = elim (Bool-cases (has_id id c)) [
  | inl here ↦ let same : c ≡ b = ground arith in rw (← same) n.0
  | inr there ↦ NotCached-found dev blockno id cache b (ground arith) n.1
]

-- A buffer behind `c` is for another block, or for none.
apart :
    (b c : Buf) (cache : List Buf) (id : ℕ)
    → find_buf (has_id id) cache ≡ some b
    → (c.dev ≡ 0) ⊎ NotCached c.dev c.blockno cache
    → (b.dev ≡ 0) ⊎ (is_block b.dev b.blockno c ≡ false)
apart b c cache id e (inl fresh) = elim (Bool-cases (b.dev == 0)) [
  | inl b_fresh ↦ inl (ground arith)
  | inr b_old ↦ inr (ground arith)
]
apart b c cache id e (inr n) =
    let other : is_block c.dev c.blockno b ≡ false =
      NotCached-found c.dev c.blockno id cache b e n in
    inr (ground arith)

-- The buffer found as `id` is once in the list, and the list without it is still once.
pub remove-IsOnce :
    (id : ℕ) (cache : List Buf) (b : Buf)
    → find_buf (has_id id) cache ≡ some b
    → IsOnce cache
    → ((b.dev ≡ 0) ⊎ NotCached b.dev b.blockno (remove id cache)) × IsOnce (remove id cache)
unfolding remove find_buf
remove-IsOnce id [] b e once = absurd (ground arith)
remove-IsOnce id (c ∷ cache) b e once = elim (Bool-cases (has_id id c)) [
  | inl here ↦ let same : c ≡ b = ground arith in rw (here, ← same) once
  | inr there ↦
      let found : find_buf (has_id id) cache ≡ some b = ground arith in
      let (rest, kept) = remove-IsOnce id cache b found once.1 in
      let first : (c.dev ≡ 0) ⊎ NotCached c.dev c.blockno (remove id cache) = elim once.0 [
        | inl fresh ↦ inl fresh
        | inr n ↦ inr (remove-NotCached c.dev c.blockno id cache n)
      ] in
      rw (there) (join (apart b c cache id found once.0) rest, (first, kept))
]
  where
    join : {A B C : Type 0} → A ⊎ B → A ⊎ C → A ⊎ (B × C)
    join (inl a) y = inl a
    join (inr b) (inl a) = inl a
    join (inr b) (inr c) = inr (b, c)
