-- ===== src/Proc/Signal/Action.antt =====
-- `sigaction`: installing a handler and putting the old one back, and the indices it lets through.
use os.Base.{
  ℕ, zero, suc, ◌<◌, ◌≡◌, ◌≢◌, ◌⊎◌, refl, ap, Bool, true, false, none, some, List, [], ◌∷◌, length,
  get_or, set, ltb, arith, get_or-set_self, get_or-set_ne,
}
use os.Base.Int.{ℤ, pos, negsuc, minus_one}
use os.Base.Result.{ok, fault}
use os.Proc.{Proc, sigkill, sigstop, nsig}
use os.Proc.Signal.{SigAction, sigaction}

-- An index of the 32 handlers.
abbrev pub IsSignal : ℤ → Type 0
IsSignal (pos n) = n < nsig
IsSignal (negsuc n) = ⊥

-- The signal number is not checked: with any other than 0 to 31, `sigaction` accesses memory
-- outside the handler array.
sigaction_out_of_range :
    (i : ℤ) (act : SigAction) (want_old : Bool) (p : Proc)
    → ¬ IsSignal i
    → sigaction i act want_old p ≡ fault
unfolding sigaction
sigaction_out_of_range (negsuc n) act want_old p h = ground arith
sigaction_out_of_range (pos n) act want_old p h = ground (arith, in_range)
  where
    in_range : ltb n nsig ≡ true → ⊥
    in_range e = h (ground arith)

set-set_back : (xs : List ℕ) (i v : ℕ) → i < length xs → set (set xs i v) i (get_or xs i 0) ≡ xs
set-set_back [] i v h = refl
set-set_back (x ∷ xs) zero v h = refl
set-set_back (x ∷ xs) (suc i) v h = ap (λ ys. x ∷ ys) (set-set_back xs i v (omega arith))

-- The process once handler `n` and the mask are those of `act`.
abbrev pub installed : ℕ → SigAction → Proc → Proc
installed n act p = record p {
  signal_handlers = set p.signal_handlers n act.sa_handler;
  signal_mask = act.sigmask;
}

-- The action in force for signal `n`.
abbrev pub action_of : ℕ → Proc → SigAction
action_of n p = record { sa_handler = get_or p.signal_handlers n 0; sigmask = p.signal_mask }

sigaction_valid :
    (n : ℕ) (act : SigAction) (p : Proc)
    → n < nsig
    → n ≢ sigkill
    → n ≢ sigstop
    → sigaction (pos n) act true p ≡ ok (pos 0, installed n act p, some (action_of n p))
unfolding sigaction
sigaction_valid n act p lt kill stop = ground arith

-- For a signal below 32 other than SIGKILL and SIGSTOP, and a handler array that has its entry,
-- `sigaction` installs the handler and the mask, leaves the other handlers, and hands out the old
-- action; a second call with that action puts the process back as it was.
pub sigaction_restores :
    (n : ℕ) (act : SigAction) (p : Proc)
    → n < nsig
    → n < length p.signal_handlers
    → n ≢ sigkill
    → n ≢ sigstop
    → let q = installed n act p in
      (sigaction (pos n) act true p ≡ ok (pos 0, q, some (action_of n p)))
      × (action_of n q ≡ act)
      × ((j : ℕ) → n ≢ j → get_or q.signal_handlers j 0 ≡ get_or p.signal_handlers j 0)
      × (sigaction (pos n) (action_of n p) false q ≡ ok (pos 0, p, none))
unfolding sigaction
sigaction_restores n act p lt len kill stop = (
  sigaction_valid n act p lt kill stop,
  ap (λ (h : ℕ). record act { sa_handler = h })
      (get_or-set_self p.signal_handlers n act.sa_handler 0 len),
  (λ j ne. get_or-set_ne p.signal_handlers n j act.sa_handler 0 ne),
  ground (arith, set-set_back p.signal_handlers n act.sa_handler len),
)

-- SIGKILL and SIGSTOP keep their handlers: the call fails and changes nothing.
pub sigaction_protected :
    (n : ℕ) (act : SigAction) (want_old : Bool) (p : Proc)
    → (n ≡ sigkill) ⊎ (n ≡ sigstop)
    → sigaction (pos n) act want_old p ≡ ok (minus_one, p, none)
unfolding sigaction
sigaction_protected n act want_old p h = ground arith
