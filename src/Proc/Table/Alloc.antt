-- ===== src/Proc/Table/Alloc.antt =====
-- Which entry `allocproc` takes, and what the new process inherits from its former owner.
use os.Base.{
  ℕ, zero, suc, ◌+◌, ◌≡◌, ◌≢◌, refl, ◌⊎◌, inl, inr, true, false, none, some, List, [], ◌∷◌, ◌==◌,
  get_elem?, set, arith, Bool-cases, get_elem?-set_self, get_elem?-lt, map-set,
}
use os.Machine.{TrapFrame}
use os.Kalloc.{Kmem, kalloc}
use os.Proc.{Proc, unused, is_unused}
use os.Proc.Table.{PTable, find_unused, fresh_proc, allocproc}
use os.Proc.Table.Pids.{
  live_pid, live_pids, live_pids-set_same, AreDistinct, AreDistinct-suc, AreDistinct-set_next,
}

-- `find_unused` finds an UNUSED entry if there is one.
pub find_unused_lem :
    (ps : List Proc)
    → ((find_unused ps ≡ none)
        × ((i : ℕ) (p : Proc) → get_elem? ps i ≡ some p → is_unused p.state ≡ false))
      ⊎ ((i : ℕ) × (p : Proc) × (find_unused ps ≡ some (i, p))
          × (get_elem? ps i ≡ some p)
          × (is_unused p.state ≡ true))
unfolding find_unused
find_unused_lem [] = inl (refl, λ i p e. absurd (ground arith))
find_unused_lem (p ∷ ps) = elim (Bool-cases (is_unused p.state)) [
  | inl free ↦ inr (0, p, rw free refl, refl, free)
  | inr busy ↦ elim (find_unused_lem ps) [
    | inl (e, all) ↦ inl (rw (busy, e) refl, λ i q h. all_busy busy all i q h)
    | inr (i, q, e, at_i, free) ↦ inr (suc i, q, rw (busy, e) refl, at_i, free)
  ]
]
  where
    all_busy :
        is_unused p.state ≡ false
        → ((i : ℕ) (q : Proc) → get_elem? ps i ≡ some q → is_unused q.state ≡ false)
        → (i : ℕ) (q : Proc) → get_elem? (p ∷ ps) i ≡ some q
        → is_unused q.state ≡ false
    all_busy busy all zero q h = ground arith
    all_busy busy all (suc i) q h = all i q h

-- What `allocproc` gives: an EMBRYO with the next pid, a stack, default handlers and nothing
-- pending, in an entry that was UNUSED. All else is what the entry's former owner left.
pub record Allocated (junk : TrapFrame) (t t' : PTable) (i : ℕ) (old new : Proc) : Type 0 where
  pub was : get_elem? t.procs i ≡ some old
  pub was_unused : is_unused old.state ≡ true
  pub now : get_elem? t'.procs i ≡ some new
  pub has_stack : new.kstack ≢ 0
  pub shape : new ≡ fresh_proc t.nextpid new.kstack junk old
  pub table : t' ≡ record { procs = set t.procs i new; nextpid = t.nextpid + 1 }

-- The entry when there is no page.
abbrev failed : PTable → Proc → Proc
failed t p = record p { state = unused; pid = t.nextpid; kstack = 0 }

allocproc_cases :
    (junk : TrapFrame) (t : PTable) (k : Kmem)
    → (((i : ℕ) (p : Proc) → get_elem? t.procs i ≡ some p → is_unused p.state ≡ false)
        × (allocproc junk t k ≡ (none, t, k)))
      ⊎ ((i : ℕ) × (p : Proc) × (get_elem? t.procs i ≡ some p)
          × (is_unused p.state ≡ true)
          × ((((kalloc k).0 ≡ 0)
                × (allocproc junk t k ≡ (
                  none,
                  record { procs = set t.procs i (failed t p); nextpid = t.nextpid + 1 },
                  (kalloc k).1,
                )))
              ⊎ (((kalloc k).0 ≢ 0)
                  × (allocproc junk t k ≡ (
                    some i,
                    record {
                      procs = set t.procs i (fresh_proc t.nextpid (kalloc k).0 junk p);
                      nextpid = t.nextpid + 1;
                    },
                    (kalloc k).1,
                  )))))
unfolding allocproc
allocproc_cases junk t k = elim (find_unused_lem t.procs) [
  | inl (e, all) ↦ inl (all, rw (e, allocproc))
  | inr (i, p, e, at_i, free) ↦ inr (
    i,
    p,
    at_i,
    free,
    elim (Bool-cases ((kalloc k).0 == 0)) [
      | inl no_page ↦ inl (ground arith, rw (e, allocproc) (rw no_page))
      | inr page ↦ inr (ground arith, rw (e, allocproc) (rw page))
    ],
  )
]

-- `allocproc` fails if every entry is in use, and changes nothing then; or if there is no page for
-- the stack, and then keeps the live pids. Else it allocates an entry that was UNUSED.
pub allocproc_lem :
    (junk : TrapFrame) (t : PTable) (k : Kmem)
    → (((i : ℕ) (p : Proc) → get_elem? t.procs i ≡ some p → is_unused p.state ≡ false)
        × (allocproc junk t k ≡ (none, t, k)))
      ⊎ (((kalloc k).0 ≡ 0)
          × ((t' : PTable) × (allocproc junk t k ≡ (none, t', (kalloc k).1))
              × (live_pids t'.procs ≡ live_pids t.procs)))
      ⊎ ((i : ℕ) × (t' : PTable) × (old : Proc) × (new : Proc) × (allocproc junk t k
            ≡ (some i, t', (kalloc k).1))
          × Allocated junk t t' i old new)
unfolding fresh_proc
allocproc_lem junk t k = elim (allocproc_cases junk t k) [
  | inl (all, r) ↦ inl (all, r)
  | inr (i, p, at_i, free, inl (no_page, r)) ↦
      inr (inl (no_page, (_, r, live_pids-set_same t.procs i p (failed t p) at_i (rw free))))
  | inr (i, p, at_i, free, inr (page, r)) ↦ inr (
      inr (
        i,
        _,
        p,
        _,
        r,
        record {
          was = at_i;
          was_unused = free;
          now = get_elem?-set_self t.procs i _ (get_elem?-lt t.procs i at_i);
          has_stack = page;
          shape = refl;
          table = refl;
        },
      ))
]

-- `allocproc` keeps the live pids distinct and below `nextpid`.
pub allocproc-AreDistinct :
    (junk : TrapFrame) (t : PTable) (k : Kmem)
    → AreDistinct t.nextpid (live_pids t.procs)
    → let (_, t', _) = allocproc junk t k in AreDistinct t'.nextpid (live_pids t'.procs)
unfolding fresh_proc
allocproc-AreDistinct junk t k h = elim (allocproc_cases junk t k) [
  | inl (_, r) ↦ rw r h
  | inr (i, p, at_i, free, inl (_, r)) ↦
      rw (r, live_pids-set_same t.procs i p (failed t p) at_i (rw free))
        (AreDistinct-suc t.nextpid (live_pids t.procs) h)
  | inr (i, p, at_i, free, inr (_, r)) ↦
      rw (r, map-set live_pid t.procs i (fresh_proc t.nextpid (kalloc k).0 junk p))
        (AreDistinct-set_next t.nextpid (live_pids t.procs) i h)
]
