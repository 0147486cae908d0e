-- ===== src/Proc/Fork/Child.antt =====
-- proc.c: what a forked child is.
use os.Base.{
  ℕ, ◌≡◌, ◌≢◌, refl, sym, ap, ◌∙◌, inl, inr, true, ◌==◌, some, get_elem?, set, Bool-cases,
  get_elem?-set_self, get_elem?-set_ne, get_elem?-lt,
}
use os.Base.Int.{ℤ, pos, minus_one}
use os.Base.Result.{Result, ok, >>=-eq-ok, ok-injective}
use os.Machine.{TrapFrame}
use os.Kalloc.{Kmem, kalloc, kfree}
use os.Proc.{Proc, runnable, is_unused}
use os.Proc.Table.{PTable, fresh_proc}
use os.Proc.Table.Alloc.{allocproc_lem}
use os.Proc.Fork.{
  System, child_of, put_proc, dup_files, dup_cwd, fork_failed, fork_copied, fork_into, fork_at,
  fork,
}

-- The child `c` of `curproc`, in the entry that `old` has left.
pub record IsChild (cur pid : ℕ) (curproc old c : Proc) : Type 0 where
  pub was_unused : is_unused old.state ≡ true
  pub has_pid : c.pid ≡ pid
  pub has_parent : c.parent ≡ some cur
  pub is_ready : c.state ≡ runnable
  pub frame : c.tf ≡ record (curproc.tf) { eax = 0 }
  pub pending : c.pending_signals ≡ 0
  pub mask : c.signal_mask ≡ curproc.signal_mask
  pub handlers : c.signal_handlers ≡ curproc.signal_handlers
  pub size : c.sz ≡ curproc.sz
  pub stale_freeze : c.freeze ≡ old.freeze

minus_one-pos :
    (pid : ℕ) (s s' : System) → ◌≢◌ {A = Result (ℤ × System)} (ok (minus_one, s)) (ok (pos pid, s'))
minus_one-pos pid s s' e = cc

module _ (kend : ℕ) (copyuvm : ℕ → ℕ → Kmem → ℕ × Kmem) where
  fork_failed_lem :
      (i pid : ℕ) (curproc np : Proc) (s s' : System)
      → fork_failed kend copyuvm curproc i np s ≢ ok (pos pid, s')
  unfolding fork_failed
  fork_failed_lem i pid curproc np s s' e =
      let (k', freed, last) = >>=-eq-ok (kfree kend np.kstack s.kmem) _ e in absurd (cc)

  fork_copied_lem :
      (cur pgdir i pid : ℕ) (curproc np : Proc) (s s' : System)
      → fork_copied kend copyuvm cur curproc pgdir i np s ≡ ok (pos pid, s')
      → (np.pid ≡ pid) × (put_proc i (child_of cur curproc pgdir np) s.table ≡ s'.table)
  unfolding fork_copied
  fork_copied_lem cur pgdir i pid curproc np s s' e =
      let (files', dup, rest) = >>=-eq-ok (dup_files curproc.ofile s.files) _ e in
      let (fs', cwd, last) = >>=-eq-ok (dup_cwd curproc.cwd s.fs) _ rest in
      let same = ok-injective last in
      let first : pos np.pid ≡ pos pid = ap (λ (x : ℤ × System). x.0) same in
      (cc, ap (λ (x : ℤ × System). x.1.table) same)

  fork_into_lem :
      (cur i pid : ℕ) (curproc np : Proc) (s s' : System)
      → fork_into kend copyuvm cur curproc i np s ≡ ok (pos pid, s')
      → (np.pid ≡ pid)
        × (put_proc i (child_of cur curproc (copyuvm curproc.pgdir curproc.sz s.kmem).0 np) s.table
            ≡ s'.table)
  unfolding fork_into
  fork_into_lem cur i pid curproc np s s' e =
      let (pgdir, k) = copyuvm curproc.pgdir curproc.sz s.kmem in
      elim (Bool-cases (pgdir == 0)) [
        | inl no_space ↦
            let step : fork_into kend copyuvm cur curproc i np s
                ≡ fork_failed kend copyuvm curproc i np (record s { kmem = k }) =
              rw (fork_into, no_space) refl in
            absurd (fork_failed_lem i pid curproc np (record s { kmem = k }) s' (sym step ∙ e))
        | inr space ↦
            let step : fork_into kend copyuvm cur curproc i np s
                ≡ fork_copied kend copyuvm cur curproc pgdir i np (record s { kmem = k }) =
              rw (fork_into, space) refl in
            fork_copied_lem cur pgdir i pid curproc np (record s { kmem = k }) s' (sym step ∙ e)
      ]

  -- When `fork` returns a pid, it is the next pid; an entry that was UNUSED holds the child, and the
  -- other entries are unchanged. The child is RUNNABLE, has the caller as parent, the caller's frame
  -- with 0 in `eax`, the caller's mask and handlers, and no pending signals; its `freeze` is what
  -- the entry's former owner left.
  pub fork_lem :
      (junk : TrapFrame) (cur pid : ℕ) (curproc : Proc) (s s' : System)
      → fork kend copyuvm junk cur curproc s ≡ ok (pos pid, s')
      → (pid ≡ s.table.nextpid)
        × ((i : ℕ) × (old : Proc) × (c : Proc) × (get_elem? s.table.procs i ≡ some old)
            × (get_elem? s'.table.procs i ≡ some c)
            × IsChild cur pid curproc old c
            × ((j : ℕ) → i ≢ j → get_elem? s'.table.procs j ≡ get_elem? s.table.procs j))
  unfolding fork fork_at fresh_proc child_of
  fork_lem junk cur pid curproc s s' e = elim (allocproc_lem junk s.table s.kmem) [
    | inl (all, fails) ↦
        let step : fork kend copyuvm junk cur curproc s ≡ ok (minus_one, s) =
          rw (fork, fails) refl in
        absurd (minus_one-pos pid s s' (sym step ∙ e))
    | inr (inl (no_page, (t', fails, same))) ↦
        let s1 : System = record s { table = t'; kmem = (kalloc s.kmem).1 } in
        let step : fork kend copyuvm junk cur curproc s ≡ ok (minus_one, s1) =
          rw (fork, fails) refl in
        absurd (minus_one-pos pid s1 s' (sym step ∙ e))
    | inr (inr (i, t', old, new, gives, a)) ↦
        let s1 : System = record s { table = t'; kmem = (kalloc s.kmem).1 } in
        let now : get_elem? t'.procs i ≡ some new = a.now in
        let step : fork kend copyuvm junk cur curproc s
            ≡ fork_into kend copyuvm cur curproc i new s1 =
          rw (fork, gives, fork_at, now) refl in
        let (has_pid, table) = fork_into_lem cur i pid curproc new s1 s' (sym step ∙ e) in
        let child : Proc = child_of cur curproc (copyuvm curproc.pgdir curproc.sz s1.kmem).0 new in
        let procs : s'.table.procs ≡ set t'.procs i child =
          sym (ap (λ (t : PTable). t.procs) table) in
        let procs' : t'.procs ≡ set s.table.procs i new = ap (λ (t : PTable). t.procs) a.table in
        (
          sym has_pid ∙ ap (λ (p : Proc). p.pid) a.shape,
          (
            i,
            old,
            child,
            a.was,
            rw (procs) (get_elem?-set_self t'.procs i child (get_elem?-lt t'.procs i now)),
            record {
              was_unused = a.was_unused;
              has_pid = has_pid;
              has_parent = refl;
              is_ready = refl;
              frame = refl;
              pending = ap (λ (p : Proc). p.pending_signals) a.shape;
              mask = refl;
              handlers = refl;
              size = refl;
              stale_freeze = ap (λ (p : Proc). p.freeze) a.shape;
            },
            λ j other.
                ap (λ l. get_elem? l j) procs
                ∙ get_elem?-set_ne t'.procs i j child other
                ∙ ap (λ l. get_elem? l j) procs'
                ∙ get_elem?-set_ne s.table.procs i j new other,
          ),
        )
  ]
