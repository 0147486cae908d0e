-- ===== src/Umalloc/Tests.antt =====
-- A heap of two free blocks, at 1000 and at 1100.
use os.Base.{
  ℕ, ◌+◌, ◌-◌, ◌*◌, ◌^◌, ◌≡◌, ◌↔◌, ◌⊎◌, inl, inr, refl, Option, none, some, List, [], ◌∷◌, ◌==◌,
  if◌then◌else◌, arith,
}
use os.Base.Result.{Result, ok, ◌>>=◌}
use os.Umalloc.{header, Heap, units, free, malloc, carve}
use os.Umalloc.Chains.{Within, Covers}
use os.Umalloc.Free.{IsList, free_lem}
use os.Umalloc.Take.{Taken, carve_lem}

abbrev ptrs : ℕ → ℕ
ptrs x = if x == 16 then 1000 else if x == 1000 then 1100 else if x == 1100 then 16 else 0

abbrev sizes : ℕ → ℕ
sizes x = if x == 1000 then 5 else if x == 1100 then 10 else if x == 1040 then 4 else 0

-- A block of 4 units at 1040, behind the one at 1000, is in use.
abbrev heap : Heap
heap = record { ptr = ptrs; size = sizes; freep = 1100; brk = 5000 }

heap-IsList : IsList 16 heap (1000 ∷ 1100 ∷ [])
heap-IsList = record { chain = omega arith; empty_base = refl; start = inr (inr (inl refl)) }

free_lem_example :
    (k : Heap) × (cs : List ℕ) × (free 6 (1040 + header) heap ≡ ok k)
    × IsList 16 k cs
    × ((x : ℕ) → Covers k cs x ↔ (Within heap 1040 x ⊎ Covers heap (1000 ∷ 1100 ∷ []) x))
free_lem_example =
    free_lem 16 heap 1040 (omega arith) (omega arith) (1000 ∷ 1100 ∷ []) 6 heap-IsList
      (inl (omega arith), (inr (omega arith), tt)) (omega arith)

carve_lem_example :
    Taken 16 3 heap
      (omega arith)
      (carve 3 1000 1100 heap).0
      (carve 3 1000 1100 heap).1
      16
      (1000 ∷ 1100 ∷ [])
carve_lem_example =
    carve_lem 16 3 heap (omega arith) 1000 1100 16 (1000 ∷ 1100 ∷ []) (omega arith)
      (inr (inl (refl, refl))) (omega arith)

no_memory : ℕ → ℕ → Option ℕ
no_memory brk n = none

block_of : Result (Option ℕ × Heap) → Result (Option ℕ)
block_of r = do (b, h) ← r; ok b

-- 9 bytes make three units, taken from the end of the block at 1000, behind `freep` and the base.
malloc_nine : block_of (malloc 16 no_memory 5 9 heap) ≡ ok (some (1000 + 2 * header + header))
unfolding malloc block_of
malloc_nine = refl

-- The number of units wraps around: 2 ^ 32 - 1 bytes get a header alone.
units_wrap : units (2 ^ 32 - 1) ≡ 1
units_wrap = refl
