-- ===== src/Kalloc/Pages.antt =====
-- Which pages the allocator holds: each once, each a page of physical memory above the kernel.
use os.Base.{
  ◌⊎◌, inl, inr, Bool-cases, ℕ, zero, suc, ◌+◌, ◌-◌, ◌*◌, ◌/◌, ◌%◌, ◌≤◌, ◌<◌, ◌≡◌, ◌≢◌, refl, ap,
  ◌∙◌, true, false, List, [], ◌∷◌, ◌^◌, ◌++◌, leb, arith,
}
use os.Base.Result.{ok}
use os.Machine.{sub32}
use os.Kalloc.{
  Kmem, pgsize, kernbase, phystop, pg_round_up, is_bad_page, kalloc, kfree, freerange_from,
  freerange,
}

-- `a` is not an entry.
abbrev pub NotIn : ℕ → List ℕ → Type 0
NotIn a [] = Unit {0}
NotIn a (x ∷ xs) = (a ≢ x) × NotIn a xs

module _ (kend : ℕ) where
  pub record IsPage (v : ℕ) : Type 0 where
    pub aligned : v % pgsize ≡ 0
    pub above : kend ≤ v
    pub physical : sub32 v kernbase < phystop

  -- The free pages are pages, and no page is listed twice.
  abbrev pub IsFreeList : List ℕ → Type 0
  IsFreeList [] = Unit {0}
  IsFreeList (v ∷ vs) = IsPage v × NotIn v vs × IsFreeList vs

  is_bad_page-IsPage : (v : ℕ) → IsPage v → is_bad_page kend v ≡ false
  is_bad_page-IsPage v h = ground arith

  kfree-IsPage :
      (v : ℕ) (k : Kmem) → IsPage v → kfree kend v k ≡ ok (record { freelist = v ∷ k.freelist })
  unfolding kfree
  kfree-IsPage v k h = rw (is_bad_page-IsPage v h)

  kfree-eq-ok :
      (v : ℕ) (k k' : Kmem)
      → kfree kend v k ≡ ok k'
      → IsPage v × (k' ≡ record { freelist = v ∷ k.freelist })
  unfolding kfree
  kfree-eq-ok v k k' e = elim (Bool-cases (is_bad_page kend v)) [
    | inl bad ↦ absurd (ground arith)
    | inr good ↦ ground arith
  ]

  -- On a sound free list that a page is not on, whatever `kfree` accepts is a page, and keeps the
  -- list sound. The next `kalloc` gives that page back, and restores the list.
  pub kfree-IsFreeList :
      (v : ℕ) (k k' : Kmem)
      → IsFreeList k.freelist
      → NotIn v k.freelist
      → kfree kend v k ≡ ok k'
      → IsFreeList k'.freelist × (kalloc k' ≡ (v, k))
  unfolding kalloc
  kfree-IsFreeList v k k' free fresh e =
      let (page, shape) = kfree-eq-ok v k k' e in rw shape ((page, fresh, free), refl)

  kalloc_cases :
      (vs : List ℕ)
      → 0 < kend
      → IsFreeList vs
      → ((vs ≡ []) × (kalloc (record { freelist = vs }) ≡ (0, record { freelist = vs })))
        ⊎ ((v : ℕ) × (rest : List ℕ) × (vs ≡ v ∷ rest)
            × (kalloc (record { freelist = vs }) ≡ (v, record { freelist = rest }))
            × (v ≢ 0)
            × IsPage v
            × NotIn v rest
            × IsFreeList rest)
  unfolding kalloc
  kalloc_cases [] pos free = inl (refl, refl)
  kalloc_cases (v ∷ rest) pos (page, fresh, free) =
      inr (v, rest, refl, refl, (λ e. omega (arith, page.above)), page, fresh, free)

  -- On a sound free list, `kalloc` returns null exactly if there is no free page. Else the result
  -- is a page, never null, it is not among the pages left, and these are a sound list.
  pub kalloc-IsFreeList :
      (k : Kmem)
      → 0 < kend
      → IsFreeList k.freelist
      → ((k.freelist ≡ []) × (kalloc k ≡ (0, k)))
        ⊎ ((v : ℕ) × (rest : List ℕ) × (k.freelist ≡ v ∷ rest)
            × (kalloc k ≡ (v, record { freelist = rest }))
            × (v ≢ 0)
            × IsPage v
            × NotIn v rest
            × IsFreeList rest)
  kalloc-IsFreeList k pos free = kalloc_cases k.freelist pos free

  -- `n` pages from `p` on, the last on top.
  abbrev pub pages_from : ℕ → ℕ → List ℕ
  pages_from zero p = []
  pages_from (suc n) p = (p + n * pgsize) ∷ pages_from n p

  -- After `m` rounds the loop stands at `q`; `t` pages fit in all.
  freerange_from_lem :
      (fuel m n t p q vend : ℕ) (k : Kmem)
      → m + n ≡ t
      → q ≡ p + m * pgsize
      → p % pgsize ≡ 0
      → kend ≤ p
      → kernbase ≤ p
      → vend ≤ kernbase + phystop
      → p + t * pgsize ≤ vend
      → vend < p + t * pgsize + pgsize
      → n < fuel
      → freerange_from kend fuel q vend (record { freelist = pages_from m p ++ k.freelist })
        ≡ ok (record { freelist = pages_from t p ++ k.freelist })
  unfolding freerange_from
  freerange_from_lem zero m n t p q vend k et eq al ab kb ve lo hi fu = absurd (omega arith)
  freerange_from_lem (suc fuel) m zero t p q vend k et eq al ab kb ve lo hi fu =
      let over : leb (q + pgsize) vend ≡ false = ground arith in
      let all : m ≡ t = omega arith in rw (over, all)
  freerange_from_lem (suc fuel) m (suc n) t p q vend k et eq al ab kb ve lo hi fu =
      let fits : leb (q + pgsize) vend ≡ true = ground arith in
      let page : IsPage q = record {
        aligned = omega arith;
        above = omega arith;
        physical = omega arith;
      } in
      rw (fits, kfree-IsPage q (record { freelist = pages_from m p ++ k.freelist }) page)
        (ap
            (λ (a : ℕ).
              freerange_from kend fuel (q + pgsize) vend
                (record { freelist = a ∷ (pages_from m p ++ k.freelist) }))
            eq
          ∙ freerange_from_lem fuel (suc m) n t p (q + pgsize) vend k (omega arith) (omega arith) al
              ab kb ve lo hi (omega arith))

  -- On a range of physical memory above the kernel, whose end is not below its start rounded up,
  -- `freerange` ends, and frees every page that lies whole in the range, once each and in order.
  freerange_lem :
      (vstart vend : ℕ) (k : Kmem)
      → vstart + pgsize < 2 ^ 32
      → kend ≤ vstart
      → kernbase ≤ vstart
      → vend ≤ kernbase + phystop
      → pg_round_up vstart ≤ vend
      → freerange kend vstart vend k
        ≡ ok (record {
          freelist =
              pages_from ((vend - pg_round_up vstart) / pgsize) (pg_round_up vstart) ++ k.freelist;
        })
  unfolding freerange
  freerange_lem vstart vend k small ab kb ve le =
      freerange_from_lem _ 0 ((vend - pg_round_up vstart) / pgsize)
        ((vend - pg_round_up vstart) / pgsize) (pg_round_up vstart) (pg_round_up vstart) vend k
        (omega arith) (omega arith) (omega arith) (omega arith) (omega arith) ve (omega arith)
        (omega arith) (omega arith)
