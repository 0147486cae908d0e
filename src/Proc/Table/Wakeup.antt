-- ===== src/Proc/Table/Wakeup.antt =====
-- `wakeup1` and the table.
use os.Base.{
  ℕ, ◌≡◌, refl, true, false, ◌&&◌, some, List, [], ◌∷◌, get_elem?, arith, length, length-map,
  get_elem?-map-some,
}
use os.Proc.{Proc, Chan, null, of_proc, at, chan_eq, is_sleeping}
use os.Proc.Table.{wake, wakeup1}
use os.Proc.Table.Pids.{live_pid, live_pids}

pub chan_eq_refl : (c : Chan) → chan_eq c c ≡ true
chan_eq_refl null = refl
chan_eq_refl (of_proc i) = ground arith
chan_eq_refl (at i) = ground arith

-- No process of the list sleeps on the channel.
abbrev pub NoSleeper : Chan → List Proc → Type 0
NoSleeper c [] = Unit {0}
NoSleeper c (p ∷ ps) = ((is_sleeping p.state && chan_eq p.chan c) ≡ false) × NoSleeper c ps

pub NoSleeper-wakeup1 : (c : Chan) (ps : List Proc) → NoSleeper c (wakeup1 c ps)
unfolding wakeup1
NoSleeper-wakeup1 c [] = tt
NoSleeper-wakeup1 c (p ∷ ps) = (ground arith, NoSleeper-wakeup1 c ps)

pub get_elem?-wakeup1 :
    (c : Chan) (ps : List Proc) (i : ℕ) {p : Proc}
    → get_elem? ps i ≡ some p
    → get_elem? (wakeup1 c ps) i ≡ some (wake c p)
unfolding wakeup1
get_elem?-wakeup1 c ps i e = get_elem?-map-some (wake c) ps i e

pub length-wakeup1 : (c : Chan) (ps : List Proc) → length (wakeup1 c ps) ≡ length ps
unfolding wakeup1
length-wakeup1 c ps = length-map (wake c) ps

live_pid-wake : (c : Chan) (p : Proc) → live_pid (wake c p) ≡ live_pid p
unfolding wake
live_pid-wake c p = ground arith

pub live_pids-wakeup1 : (c : Chan) (ps : List Proc) → live_pids (wakeup1 c ps) ≡ live_pids ps
unfolding wakeup1
live_pids-wakeup1 c [] = refl
live_pids-wakeup1 c (p ∷ ps) = λ i. live_pid-wake c p i ∷ live_pids-wakeup1 c ps i
