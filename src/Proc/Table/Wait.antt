-- ===== src/Proc/Table/Wait.antt =====
-- When `wait` returns a pid, when -1, and when it sleeps.
use os.Base.{
  ℕ, suc, ◌≡◌, refl, sym, ◌⊎◌, inl, inr, true, false, ◌&&◌, none, some, List, [], ◌∷◌, get_elem?,
  set, arith, Bool-cases,
}
use os.Base.Int.{pos, minus_one}
use os.Base.Result.{Result, ok, >>=-eq-ok, ok-injective}
use os.Kalloc.{Kmem, kfree}
use os.Proc.{Proc, of_proc, sleeping, is_zombie}
use os.Proc.Table.{Waited, returns, sleeps, is_parent, scan_children, reaped, wait_round}

-- Process `i` is a ZOMBIE child of `cur`.
abbrev pub ZombieChild : ℕ → List Proc → ℕ → Proc → Type 0
ZombieChild cur ps i p =
    (get_elem? ps i ≡ some p) × (is_parent cur p.parent ≡ true) × (is_zombie p.state ≡ true)

-- `cur` has no ZOMBIE child; or no child at all.
abbrev pub NoZombieChild : ℕ → List Proc → Type 0
NoZombieChild cur [] = Unit {0}
NoZombieChild cur (p ∷ ps) =
    ((is_parent cur p.parent && is_zombie p.state) ≡ false) × NoZombieChild cur ps

abbrev pub NoChild : ℕ → List Proc → Type 0
NoChild cur [] = Unit {0}
NoChild cur (p ∷ ps) = (is_parent cur p.parent ≡ false) × NoChild cur ps

-- What the scan finds.
scan_children_lem :
    (cur : ℕ) (ps : List Proc)
    → let (kids, found) = scan_children cur ps in
      ((i : ℕ) × (p : Proc) × (found ≡ some (i, p)) × ZombieChild cur ps i p)
      ⊎ ((found ≡ none)
          × NoZombieChild cur ps
          × (((kids ≡ false) × NoChild cur ps) ⊎ ((kids ≡ true) × (NoChild cur ps → ⊥))))
unfolding scan_children
scan_children_lem cur [] = inr (refl, tt, inl (refl, tt))
scan_children_lem cur (p ∷ ps) = elim (Bool-cases (is_parent cur p.parent)) [
  | inl child ↦ elim (Bool-cases (is_zombie p.state)) [
    | inl dead ↦ inl (0, p, rw (child, dead) refl, (refl, child, dead))
    | inr alive ↦ elim (scan_children_lem cur ps) [
      | inl (i, q, e, found) ↦ inl (suc i, q, rw (child, alive, e) refl, found)
      | inr (e, none_dead, _) ↦ inr (
        rw (child, alive, e) refl,
        (rw (child, alive) refl, none_dead),
        inr (rw (child, alive) refl, λ no_child. ground (arith, no_child.0)),
      )
    ]
  ]
  | inr other ↦ elim (scan_children_lem cur ps) [
    | inl (i, q, e, found) ↦ inl (suc i, q, rw (other, e) refl, found)
    | inr (e, none_dead, inl (k, no_child)) ↦
        inr (rw (other, e) refl, (rw other refl, none_dead), inl (rw other k, (other, no_child)))
    | inr (e, none_dead, inr (k, some_child)) ↦
        inr (rw (other, e) refl, (rw other refl, none_dead), inr (rw other k, λ h. some_child h.1))
  ]
]

-- The ways in which a round of `wait` ends.
module _ (kend : ℕ) (freevm : ℕ → Kmem → Result Kmem) where
  -- It returns the pid of the first ZOMBIE child, whose stack and address space it has freed and
  -- whose entry it has given back.
  abbrev pub Reaps : ℕ → Proc → List Proc → Kmem → Waited × List Proc × Kmem → Type 0
  Reaps cur curproc ps k r =
      (i : ℕ) × (p : Proc) × (k1 : Kmem) × (k2 : Kmem) × ZombieChild cur ps i p
      × (kfree kend p.kstack k ≡ ok k1)
      × (freevm p.pgdir k1 ≡ ok k2)
      × (r ≡ (returns (pos p.pid), set ps i (reaped p), k2))

  -- A round of `wait` that does not panic returns a pid only by reaping a ZOMBIE child. With no
  -- ZOMBIE child, it returns -1 if there is no child at all or the caller was killed, and changes
  -- nothing; else it goes to sleep on the caller's own channel.
  pub wait_round_lem :
      (cur : ℕ) (curproc : Proc) (ps : List Proc) (k : Kmem) (r : Waited × List Proc × Kmem)
      → wait_round kend freevm cur curproc ps k ≡ ok r
      → Reaps cur curproc ps k r
        ⊎ (NoZombieChild cur ps
            × (NoChild cur ps ⊎ (curproc.killed ≡ true))
            × (r ≡ (returns minus_one, ps, k)))
        ⊎ (NoZombieChild cur ps
            × (NoChild cur ps → ⊥)
            × (curproc.killed ≡ false)
            × (r ≡ (
              sleeps,
              set ps cur (record curproc { chan = of_proc cur; state = sleeping }),
              k,
            )))
  unfolding wait_round
  wait_round_lem cur curproc ps k r run = elim (scan_children_lem cur ps) [
    | inl (i, p, e, found) ↦
        let (k1, freed, run1) = >>=-eq-ok (kfree kend p.kstack k) _ (rw (e, wait_round) at run) in
        let (k2, cleared, run2) = >>=-eq-ok (freevm p.pgdir k1) _ run1 in
        inl (i, p, k1, k2, found, freed, cleared, sym (ok-injective run2))
    | inr (e, none_dead, inl (kids, no_child)) ↦ inr (inl (none_dead, inl no_child, ground arith))
    | inr (e, none_dead, inr (kids, some_child)) ↦ elim (Bool-cases curproc.killed) [
      | inl dead ↦ inr (inl (none_dead, inr dead, ground arith))
      | inr alive ↦ inr (inr (none_dead, some_child, alive, ground arith))
    ]
  ]
