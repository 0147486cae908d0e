-- ===== src/Proc/Table/Stale.antt =====
-- proc.c: what a reused entry of the table keeps of its former process.
use os.Base.{ℕ, ◌≡◌, sym, ap, ◌∙◌, inl, inr, true, Option, some, get_elem?, arith}
use os.Machine.{TrapFrame}
use os.Kalloc.{Kmem, kalloc}
use os.Proc.{Proc}
use os.Proc.Table.{PTable, allocproc, fresh_proc, reaped}
use os.Proc.Table.Alloc.{allocproc_lem}

fresh_proc_freeze :
    (pid kstack : ℕ) (junk : TrapFrame) (p q : Proc)
    → q ≡ fresh_proc pid kstack junk (reaped p)
    → q.freeze ≡ p.freeze
unfolding fresh_proc reaped
fresh_proc_freeze pid kstack junk p q e = ap (λ (r : Proc). r.freeze) e

-- If the process that `wait` reaped from an entry was frozen, the process that `allocproc` next
-- makes in that entry is frozen too.
pub allocproc_stale_freeze :
    (junk : TrapFrame) (t t' : PTable) (k k' : Kmem) (i : ℕ) (p : Proc)
    → get_elem? t.procs i ≡ some (reaped p)
    → p.freeze ≡ true
    → allocproc junk t k ≡ (some i, t', k')
    → (new : Proc) × (get_elem? t'.procs i ≡ some new) × (new.freeze ≡ true)
allocproc_stale_freeze junk t t' k k' i p at_i frozen e = elim (allocproc_lem junk t k) [
  | inl (_, e') ↦ absurd (ground (arith, sym e ∙ e'))
  | inr (inl (_, (_, e', _))) ↦ absurd (ground (arith, sym e ∙ e'))
  | inr (inr (j, u, old, new, e', a)) ↦
      let both : (some i, t', k') ≡ (some j, u, (kalloc k).1) = sym e ∙ e' in
      let same_table : t' ≡ u = ap (λ (r : Option ℕ × PTable × Kmem). r.1) both in
      let same_index : some i ≡ some j = ap (λ (r : Option ℕ × PTable × Kmem). r.0) both in
      let index : i ≡ j = ground arith in
      let at_j : get_elem? t.procs i ≡ some old = ap (get_elem? t.procs) index ∙ a.was in
      let former : old ≡ reaped p = ground (arith, sym at_j ∙ at_i) in
      let now : get_elem? t'.procs i ≡ some new =
        ap (λ (u' : PTable). get_elem? u'.procs i) same_table
        ∙ ap (get_elem? u.procs) index
        ∙ a.now in
      (
        new,
        now,
        fresh_proc_freeze t.nextpid new.kstack junk p new
              (a.shape ∙ ap (fresh_proc t.nextpid new.kstack junk) former)
            ∙ frozen,
      )
]
