-- ===== src/Proc/Sched.antt =====
-- proc.c: what `scheduler` does at one entry of the process table, up to the switch.
pub mod Frozen
mod Tests
use os.Base.{
  ℕ, zero, suc, ◌+◌, Bool, true, false, ◌&&◌, ◌||◌, not, Option, none, some, List, ◌==◌,
  if◌then◌else◌, get_elem?, get_or, set, bit_and, bit_xor,
}
use os.Base.Result.{Result, ok, fault, ◌>>=◌}
use os.Proc.{
  Proc, ProcState, runnable, running, is_runnable, sig_dfl, sigkill, sigstop, sigcont, sig_bit,
}
use os.Proc.Signal.{sigcont_handler}

-- `SIGCONT_handler` writes through `myproc()`, the `proc` field of this CPU: null in the scheduler
-- between two processes, since it is cleared before the loop and after every switch back.
sigcont_handler_myproc : Option ℕ → List Proc → Result (List Proc)
sigcont_handler_myproc none procs = fault
sigcont_handler_myproc (some c) procs = elim (get_elem? procs c) [
  | none ↦ fault
  | some p ↦ ok (set procs c (sigcont_handler p))
]

-- `p->pending_signals ^= (1 << SIGCONT)` on the entry `i`
toggle_sigcont : ℕ → List Proc → List Proc
toggle_sigcont i procs = elim (get_elem? procs i) [
  | none ↦ procs
  | some p ↦
      set procs i (record p { pending_signals = bit_xor p.pending_signals (sig_bit sigcont) })
]

-- `cont` is the address of `SIGCONT_handler`, and `myproc` the process of this CPU.
module _ (cont : ℕ) (myproc : Option ℕ) where
  continue_proc : ℕ → List Proc → Result (List Proc)
  unfolding sigcont_handler_myproc toggle_sigcont
  continue_proc i procs = do ps ← sigcont_handler_myproc myproc procs; ok (toggle_sigcont i ps)

  -- Some pending signal from `s` on, of `n`, other than SIGKILL and SIGSTOP, has SIGCONT's handler.
  pub has_cont_handler : ℕ → ℕ → Proc → Bool
  has_cont_handler zero s p = false
  has_cont_handler (suc n) s p =
      (not (s == sigkill || s == sigstop)
        && not (bit_and p.pending_signals (sig_bit s) == 0)
        && get_or p.signal_handlers s 0 == cont)
      || has_cont_handler n (s + 1) p

  -- The `if (p->freeze)` block at entry `i`.
  thaw : ℕ → Proc → List Proc → Result (List Proc)
  unfolding continue_proc
  thaw i p procs =
      if not (bit_and p.pending_signals (sig_bit sigcont) == 0)
        && get_or p.signal_handlers sigcont 0 == sig_dfl
      then continue_proc i procs
      else if has_cont_handler 32 0 p
      then continue_proc i procs
      else ok procs

  -- The entry is dispatched unless it is frozen still.
  dispatch_entry : ℕ → List Proc → Bool × List Proc
  dispatch_entry i procs = elim (get_elem? procs i) [
    | none ↦ (false, procs)
    | some p ↦
        if p.freeze then (false, procs) else (true, set procs i (record p { state = running }))
  ]

  -- Whether the process is switched to, and the table then.
  unfoldable pub visit : ℕ → List Proc → Result (Bool × List Proc)
  unfolding thaw dispatch_entry
  visit i procs = elim (get_elem? procs i) [
    | none ↦ ok (false, procs)
    | some p ↦
        if is_runnable p.state
        then (do ps ← (if p.freeze then thaw i p procs else ok procs); ok (dispatch_entry i ps))
        else ok (false, procs)
  ]
