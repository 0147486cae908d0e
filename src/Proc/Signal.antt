-- ===== src/Proc/Signal.antt =====
-- proc.c: `kill`, `sigprocmask`, `sigaction` and the three kernel handlers. Printing is left out.
pub mod Kill
pub mod Action
mod Tests
use os.Base.{
  ℕ, Bool, true, false, ◌&&◌, ◌||◌, Option, none, some, List, [], ◌∷◌, ◌==◌, ltb, if◌then◌else◌,
  get_or, set, bit_or,
}
use os.Base.Int.{ℤ, pos, negsuc, minus_one, eq_int}
use os.Base.Result.{Result, ok, fault}
use os.Proc.{Proc, runnable, is_sleeping, sigkill, sigstop, nsig, sig_bit}

-- types.h's `struct sigaction`
pub record SigAction : Type 0 where
  pub sa_handler : ℕ
  pub sigmask : ℕ

-- Returns the old mask.
unfoldable pub sigprocmask : ℕ → Proc → ℕ × Proc
sigprocmask sigmask p = (p.signal_mask, record p { signal_mask = sigmask })

-- The handler of an array index that the code does not check: outside the 32 entries it reads and
-- writes other memory.
set_action : ℕ → SigAction → Bool → Proc → Result (ℤ × Proc × Option SigAction)
set_action n act want_old p =
    if ltb n nsig
    then ok (
      pos 0,
      record p {
        signal_handlers = set p.signal_handlers n act.sa_handler;
        signal_mask = act.sigmask;
      },
      if want_old
          then some (record { sa_handler = get_or p.signal_handlers n 0; sigmask = p.signal_mask })
          else none,
    )
    else fault

-- The result, the process afterwards, and what is written through `oldact` if that is not null.
-- `act->sigmask < 0` compares an unsigned number.
unfoldable pub sigaction : ℤ → SigAction → Bool → Proc → Result (ℤ × Proc × Option SigAction)
unfolding set_action
sigaction (negsuc n) act want_old p = if ltb act.sigmask 0 then ok (minus_one, p, none) else fault
sigaction (pos n) act want_old p =
    if n == sigkill || n == sigstop
    then ok (minus_one, p, none)
    else if ltb act.sigmask 0
    then ok (minus_one, p, none)
    else set_action n act want_old p

unfoldable pub sigkill_handler : Proc → Proc
sigkill_handler p = record p { killed = true }

unfoldable pub sigstop_handler : Proc → Proc
sigstop_handler p = if is_sleeping p.state then p else record p { freeze = true }

unfoldable pub sigcont_handler : Proc → Proc
sigcont_handler p = record p { freeze = false }

-- `p->pending_signals |= 1 << signum`, and the wake-up on SIGKILL
unfoldable pub post_signal : ℕ → Proc → Proc
post_signal signum p = record p {
  pending_signals = bit_or p.pending_signals (sig_bit signum);
  state = if is_sleeping p.state && signum == sigkill then runnable else p.state;
}

-- The loop of `kill`: it stops at the first entry with the pid.
kill_scan : ℤ → ℕ → List Proc → ℤ × List Proc
kill_scan pid signum [] = (minus_one, [])
kill_scan pid signum (p ∷ ps) =
    let (r, ps') = kill_scan pid signum ps in
    if eq_int p.pid pid then (pos 0, post_signal signum p ∷ ps) else (r, p ∷ ps')

unfoldable pub kill : ℤ → ℤ → List Proc → ℤ × List Proc
unfolding kill_scan post_signal
kill pid (negsuc n) procs = (minus_one, procs)
kill pid (pos n) procs = if ltb 31 n then (minus_one, procs) else kill_scan pid n procs
