-- ===== src/Kalloc.antt =====
-- kalloc.c: the allocator of physical pages. The free list is the list of the free pages'
-- addresses; the junk that `kfree` fills a page with, and the lock, are left out.
pub mod Pages
mod Tests
use os.Base.{
  ℕ, zero, suc, ◌+◌, ◌-◌, ◌*◌, ◌/◌, ◌%◌, ◌^◌, Bool, true, false, ◌||◌, not, List, [], ◌∷◌, ◌==◌,
  ltb, leb, if◌then◌else◌,
}
use os.Base.Result.{Result, ok, panic, fault, ◌>>=◌, ◌>>◌, panic_if}
use os.Machine.{sub32, add32}

abbrev pub pgsize : ℕ
pgsize = 4096

-- memlayout.h
abbrev pub kernbase : ℕ
kernbase = 0x80000000

abbrev pub phystop : ℕ
phystop = 0xE000000

pub record Kmem : Type 0 where
  pub freelist : List ℕ

-- `PGROUNDUP`
abbrev pub pg_round_up : ℕ → ℕ
pg_round_up a = add32 a (pgsize - 1) / pgsize * pgsize

-- Null if the list is empty.
unfoldable pub kalloc : Kmem → ℕ × Kmem
kalloc k = elim k.freelist [ [] ↦ (0, k) | r ∷ rest ↦ (r, record k { freelist = rest }) ]

-- `kend` is the address `end` of the linker script.
module _ (kend : ℕ) where
  -- The argument of `kfree` is no page of the allocator's.
  abbrev pub is_bad_page : ℕ → Bool
  is_bad_page v = not (v % pgsize == 0) || ltb v kend || leb phystop (sub32 v kernbase)

  unfoldable pub kfree : ℕ → Kmem → Result Kmem
  kfree v k = do panic_if (is_bad_page v) "kfree"; ok (record k { freelist = v ∷ k.freelist })

  -- The loop of `freerange`, with fuel; a fault when it runs out.
  pub freerange_from : ℕ → ℕ → ℕ → Kmem → Result Kmem
  freerange_from zero p vend k = fault
  freerange_from (suc fuel) p vend k =
      let rest = (do k' ← kfree p k; freerange_from fuel (p + pgsize) vend k') in
      if leb (p + pgsize) vend then rest else ok k

  -- There are at most `vend / pgsize` rounds.
  pub freerange : ℕ → ℕ → Kmem → Result Kmem
  unfolding freerange_from
  freerange vstart vend k = freerange_from (vend / pgsize + 1) (pg_round_up vstart) vend k
