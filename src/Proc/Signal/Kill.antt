-- ===== src/Proc/Signal/Kill.antt =====
-- Which process `kill` finds, and what it does to it.
use os.Base.{
  ℕ, zero, suc, ap, ◌<◌, ◌≡◌, ◌≢◌, refl, ◌⊎◌, inl, inr, true, false, ◌&&◌, some, List, [], ◌∷◌,
  ◌==◌, if◌then◌else◌, get_elem?, set, ltb, arith, Bool-cases,
}
use os.Base.Bits.{bit, bit-set_self, bit-set_ne}
use os.Base.Int.{ℤ, pos, minus_one, eq_int}
use os.Proc.{Proc, runnable, unused, is_sleeping, sigkill}
use os.Proc.Signal.{post_signal, kill_scan, kill}

-- No process of the list has the pid.
abbrev pub NoPid : ℤ → List Proc → Type 0
NoPid pid [] = Unit {0}
NoPid pid (p ∷ ps) = (eq_int p.pid pid ≡ false) × NoPid pid ps

-- Entry `k` is the first with the pid.
abbrev pub FirstPid : ℤ → List Proc → ℕ → Proc → Type 0
FirstPid pid [] k q = ⊥
FirstPid pid (p ∷ ps) zero q = (eq_int p.pid pid ≡ true) × (p ≡ q)
FirstPid pid (p ∷ ps) (suc k) q = (eq_int p.pid pid ≡ false) × FirstPid pid ps k q

kill_scan_lem :
    (pid : ℤ) (s : ℕ) (ps : List Proc)
    → (NoPid pid ps × (kill_scan pid s ps ≡ (minus_one, ps)))
      ⊎ ((k : ℕ) × (p : Proc) × FirstPid pid ps k p
          × (kill_scan pid s ps ≡ (pos 0, set ps k (post_signal s p))))
unfolding kill_scan
kill_scan_lem pid s [] = inl (tt, refl)
kill_scan_lem pid s (p ∷ ps) = elim (Bool-cases (eq_int p.pid pid)) [
  | inl hit ↦ inr (0, p, (hit, refl), rw hit)
  | inr miss ↦ elim (kill_scan_lem pid s ps) [
    | inl (nobody, e) ↦ inl ((miss, nobody), rw (miss, e))
    | inr (k, q, first, e) ↦ inr (suc k, q, (miss, first), rw (miss, e))
  ]
]

-- What `kill` posts: the signal's bit and no other, and a wake-up exactly for SIGKILL.
abbrev pub Posted : ℕ → Proc → Proc → Type 0
Posted s p q =
    (bit q.pending_signals s ≡ 1)
    × ((j : ℕ) → s ≢ j → bit q.pending_signals j ≡ bit p.pending_signals j)
    × (q.state ≡ (if is_sleeping p.state && s == sigkill then runnable else p.state))
    × (q ≡ record p { pending_signals = q.pending_signals; state = q.state })

post_signal-Posted : (s : ℕ) (p : Proc) → Posted s p (post_signal s p)
unfolding post_signal
post_signal-Posted s p =
    (bit-set_self s p.pending_signals, (λ j h. bit-set_ne s j p.pending_signals h), refl, refl)

kill_scan-FirstPid :
    (pid : ℤ) (s k : ℕ) (p : Proc) (ps : List Proc)
    → FirstPid pid ps k p
    → kill_scan pid s ps ≡ (pos 0, set ps k (post_signal s p))
unfolding kill_scan
kill_scan-FirstPid pid s k p [] h = absurd h
kill_scan-FirstPid pid s zero p (q ∷ ps) h = rw (h.0) (ap (λ q. (pos 0, post_signal s q ∷ ps)) h.1)
kill_scan-FirstPid pid s (suc k) p (q ∷ ps) h = rw (h.0, kill_scan-FirstPid pid s k p ps h.1) refl

-- `kill` on a pid that some entry has.
pub kill-FirstPid :
    (pid : ℤ) (s k : ℕ) (p : Proc) (ps : List Proc)
    → s < 32
    → FirstPid pid ps k p
    → kill pid (pos s) ps ≡ (pos 0, set ps k (post_signal s p))
unfolding kill
kill-FirstPid pid s k p ps lt h =
    let valid : ltb 31 s ≡ false = ground arith in rw valid (kill_scan-FirstPid pid s k p ps h)

pub get_elem?-FirstPid :
    (pid : ℤ) (ps : List Proc) (k : ℕ) (p : Proc) → FirstPid pid ps k p → get_elem? ps k ≡ some p
get_elem?-FirstPid pid [] k p h = absurd h
get_elem?-FirstPid pid (q ∷ ps) zero p h = ap some h.1
get_elem?-FirstPid pid (q ∷ ps) (suc k) p h = get_elem?-FirstPid pid ps k p h.1

-- `kill` with a signal number below 32: if no entry has the pid it fails and changes nothing.
-- Else it returns 0, posts the signal to the first entry that has it, and changes no other entry.
pub kill_lem :
    (pid : ℤ) (s : ℕ) (ps : List Proc)
    → s < 32
    → (NoPid pid ps × (kill pid (pos s) ps ≡ (minus_one, ps)))
      ⊎ ((k : ℕ) × (p q : Proc) × FirstPid pid ps k p
          × Posted s p q
          × (kill pid (pos s) ps ≡ (pos 0, set ps k q)))
unfolding kill
kill_lem pid s ps lt =
    let valid : ltb 31 s ≡ false = ground arith in
    elim (kill_scan_lem pid s ps) [
      | inl (nobody, e) ↦ inl (nobody, rw valid e)
      | inr (k, p, first, e) ↦
          inr (k, p, post_signal s p, first, post_signal-Posted s p, rw valid e)
    ]

kill_scan_hit :
    (n s : ℕ) (ps : List Proc) (k : ℕ) (p : Proc)
    → get_elem? ps k ≡ some p
    → p.pid ≡ n
    → (kill_scan (pos n) s ps).0 ≡ pos 0
unfolding kill_scan
kill_scan_hit n s [] k p e h = absurd (ground arith)
kill_scan_hit n s (q ∷ ps) zero p e h = ground arith
kill_scan_hit n s (q ∷ ps) (suc k) p e h = ground (arith, kill_scan_hit n s ps k p e h)

-- `kill` with a signal below 32 does not look at the state: on the pid that a free entry holds it
-- reports success.
pub kill_unused :
    (s : ℕ) (ps : List Proc) (k : ℕ) (p : Proc)
    → s < 32
    → get_elem? ps k ≡ some p
    → p.state ≡ unused
    → (kill (pos p.pid) (pos s) ps).0 ≡ pos 0
unfolding kill
kill_unused s ps k p lt e h =
    let valid : ltb 31 s ≡ false = ground arith in rw valid (kill_scan_hit p.pid s ps k p e refl)
