-- ===== src/Proc/Sched/Frozen.antt =====
-- The scheduler and a process that SIGSTOP has frozen.
use os.Base.{
  ℕ, zero, suc, ◌+◌, ◌≡◌, ◌≢◌, refl, sym, ap, ◌∙◌, inl, inr, true, false, none, some, List,
  get_elem?, get_or, set, arith, Bool-cases, ◌==◌, get_elem?-set_self, get_elem?-lt,
}
use os.Base.Bits.{bit, bit-set_self, bit_and-pow-eq_zero, bit-set_ne, bit-zero}
use os.Base.Result.{ok, fault}
use os.Proc.{Proc, is_runnable, sig_dfl, sigkill, sigcont}
use os.Base.Int.{ℤ, pos}
use os.Proc.Signal.{post_signal, kill}
use os.Proc.Signal.Kill.{FirstPid, kill-FirstPid, get_elem?-FirstPid}
use os.Proc.Sched.{has_cont_handler, dispatch_entry, visit}

-- No signal but SIGKILL is pending.
abbrev pub OnlyKill : Proc → Type 0
OnlyKill p = (s : ℕ) → s ≢ sigkill → bit p.pending_signals s ≡ 0

module _ (cont : ℕ) where
  visit-sigcont_faults :
      (i : ℕ) (p : Proc) (ps : List Proc)
      → get_elem? ps i ≡ some p
      → is_runnable p.state ≡ true
      → p.freeze ≡ true
      → bit p.pending_signals sigcont ≡ 1
      → get_or p.signal_handlers sigcont 0 ≡ sig_dfl
      → visit cont none i ps ≡ fault
  unfolding visit
  visit-sigcont_faults i p ps at_i ready frozen set default =
      rw (at_i, visit)
        (rw (ready, frozen, bit_and-pow-eq_zero sigcont p.pending_signals, set, default) refl)

  -- `kill` with SIGCONT, which is to let a stopped process go on, brings the scheduler down: if the
  -- first entry with the pid is RUNNABLE and frozen, and has the default action for SIGCONT, whatever
  -- else is pending, then `kill` returns 0, and the scheduler, when it comes to the entry, writes
  -- through a null pointer, since no process is current.
  pub visit-kill :
      (pid : ℤ) (i : ℕ) (p : Proc) (ps : List Proc)
      → FirstPid pid ps i p
      → is_runnable p.state ≡ true
      → p.freeze ≡ true
      → get_or p.signal_handlers sigcont 0 ≡ sig_dfl
      → let (r, ps') = kill pid (pos sigcont) ps in (r ≡ pos 0) × (visit cont none i ps' ≡ fault)
  visit-kill pid i p ps first ready frozen default =
      let posted = kill-FirstPid pid sigcont i p ps (omega arith) first in
      let at_i = get_elem?-FirstPid pid ps i p first in
      (
        ap (λ (r : ℤ × List Proc). r.0) posted,
        rw (ap (λ (r : ℤ × List Proc). r.1) posted) (
            visit-sigcont_faults i (post_signal sigcont p) (set ps i (post_signal sigcont p))
              (get_elem?-set_self ps i (post_signal sigcont p) (get_elem?-lt ps i at_i))
              (unfold post_signal in ground arith) (unfold post_signal in frozen)
              (unfold post_signal in bit-set_self sigcont p.pending_signals)
              (unfold post_signal in default)),
      )

  has_cont_handler-none :
      (n s : ℕ) (p : Proc) → OnlyKill p → has_cont_handler cont none n s p ≡ false
  unfolding has_cont_handler
  has_cont_handler-none zero s p only = refl
  has_cont_handler-none (suc n) s p only = elim (Bool-cases (s == sigkill)) [
    | inl kill ↦ ground (arith, has_cont_handler-none n (s + 1) p only)
    | inr other ↦ ground (
      arith,
      has_cont_handler-none n (s + 1) p only,
      bit_and-pow-eq_zero s p.pending_signals,
      only s (ground arith),
    )
  ]

  visit_frozen :
      (i : ℕ) (p : Proc) (ps : List Proc)
      → get_elem? ps i ≡ some p
      → is_runnable p.state ≡ true
      → p.freeze ≡ true
      → OnlyKill p
      → visit cont none i ps ≡ ok (false, ps)
  unfolding visit
  visit_frozen i p ps at_i ready frozen only =
      rw (at_i, visit)
        (rw
          (
            ready,
            has_cont_handler-none 32 0 p only,
            bit_and-pow-eq_zero sigcont p.pending_signals,
            only sigcont (λ e. omega arith),
            frozen,
          )
          (rw (at_i, dispatch_entry) (rw frozen refl)))

  only_post_signal : (p : Proc) → p.pending_signals ≡ 0 → OnlyKill (post_signal sigkill p)
  unfolding post_signal
  only_post_signal p clear s ne =
      bit-set_ne sigkill s p.pending_signals (λ e. ne (sym e))
      ∙ ap (λ (w : ℕ). bit w s) clear
      ∙ bit-zero s

  -- After SIGKILL is posted to a RUNNABLE frozen process on which no signal is pending, the
  -- scheduler still passes the process over and changes nothing.
  pub visit_frozen_kill :
      (i : ℕ) (p : Proc) (ps : List Proc)
      → get_elem? ps i ≡ some p
      → is_runnable p.state ≡ true
      → p.freeze ≡ true
      → p.pending_signals ≡ 0
      → let ps' = set ps i (post_signal sigkill p) in visit cont none i ps' ≡ ok (false, ps')
  visit_frozen_kill i p ps at_i ready frozen clear =
      visit_frozen i (post_signal sigkill p) _
        (get_elem?-set_self ps i (post_signal sigkill p) (get_elem?-lt ps i at_i))
        (unfold post_signal in ground arith) (unfold post_signal in frozen)
        (only_post_signal p clear)
