-- ===== src/Proc/Table/Pids.antt =====
-- The pids of the entries in use: distinct, and below `nextpid`.
use os.Base.{
  ℕ, zero, suc, ◌+◌, ◌<◌, ◌≡◌, ◌≢◌, ap, Option, none, some, List, [], ◌∷◌, map, if◌then◌else◌, refl,
  ◌∙◌, get_elem?, set, arith, map-set, set-get_elem?, get_elem?-map-some,
}
use os.Proc.{Proc, is_unused}

-- The pid of an entry in use.
abbrev pub live_pid : Proc → Option ℕ
live_pid p = if is_unused p.state then none else some p.pid

abbrev pub live_pids : List Proc → List (Option ℕ)
live_pids = map live_pid

abbrev pub Absent : ℕ → List (Option ℕ) → Type 0
Absent a [] = Unit {0}
Absent a (none ∷ vs) = Absent a vs
Absent a (some b ∷ vs) = (a ≢ b) × Absent a vs

-- All pids are below `n`, and no two are equal.
abbrev pub AreDistinct : ℕ → List (Option ℕ) → Type 0
AreDistinct n [] = Unit {0}
AreDistinct n (none ∷ vs) = AreDistinct n vs
AreDistinct n (some a ∷ vs) = (a < n) × Absent a vs × AreDistinct n vs

Absent-set-none : (a : ℕ) (vs : List (Option ℕ)) (i : ℕ) → Absent a vs → Absent a (set vs i none)
Absent-set-none a [] i h = h
Absent-set-none a (none ∷ vs) zero h = h
Absent-set-none a (some b ∷ vs) zero h = h.1
Absent-set-none a (none ∷ vs) (suc i) h = Absent-set-none a vs i h
Absent-set-none a (some b ∷ vs) (suc i) h = (h.0, Absent-set-none a vs i h.1)

Absent-set-some :
    (a b : ℕ) (vs : List (Option ℕ)) (i : ℕ) → a ≢ b → Absent a vs → Absent a (set vs i (some b))
Absent-set-some a b [] i ne h = h
Absent-set-some a b (none ∷ vs) zero ne h = (ne, h)
Absent-set-some a b (some c ∷ vs) zero ne h = (ne, h.1)
Absent-set-some a b (none ∷ vs) (suc i) ne h = Absent-set-some a b vs i ne h
Absent-set-some a b (some c ∷ vs) (suc i) ne h = (h.0, Absent-set-some a b vs i ne h.1)

Absent-above : (n : ℕ) (vs : List (Option ℕ)) → AreDistinct n vs → Absent n vs
Absent-above n [] h = tt
Absent-above n (none ∷ vs) h = Absent-above n vs h
Absent-above n (some a ∷ vs) h = ((λ e. omega arith), Absent-above n vs h.2)

pub AreDistinct-suc : (n : ℕ) (vs : List (Option ℕ)) → AreDistinct n vs → AreDistinct (n + 1) vs
AreDistinct-suc n [] h = tt
AreDistinct-suc n (none ∷ vs) h = AreDistinct-suc n vs h
AreDistinct-suc n (some a ∷ vs) h = (omega arith, h.1, AreDistinct-suc n vs h.2)

-- Giving up an entry.
pub AreDistinct-set-none :
    (n : ℕ) (vs : List (Option ℕ)) (i : ℕ) → AreDistinct n vs → AreDistinct n (set vs i none)
AreDistinct-set-none n [] i h = h
AreDistinct-set-none n (none ∷ vs) zero h = h
AreDistinct-set-none n (some a ∷ vs) zero h = h.2
AreDistinct-set-none n (none ∷ vs) (suc i) h = AreDistinct-set-none n vs i h
AreDistinct-set-none n (some a ∷ vs) (suc i) h =
    (h.0, Absent-set-none a vs i h.1, AreDistinct-set-none n vs i h.2)

-- Taking an entry with the next pid.
pub AreDistinct-set_next :
    (n : ℕ) (vs : List (Option ℕ)) (i : ℕ)
    → AreDistinct n vs
    → AreDistinct (n + 1) (set vs i (some n))
AreDistinct-set_next n [] i h = h
AreDistinct-set_next n (none ∷ vs) zero h =
    (omega arith, Absent-above n vs h, AreDistinct-suc n vs h)
AreDistinct-set_next n (some a ∷ vs) zero h =
    (omega arith, Absent-above n vs h.2, AreDistinct-suc n vs h.2)
AreDistinct-set_next n (none ∷ vs) (suc i) h = AreDistinct-set_next n vs i h
AreDistinct-set_next n (some a ∷ vs) (suc i) h =
    (omega arith, Absent-set-some a n vs i (λ e. omega arith) h.1, AreDistinct-set_next n vs i h.2)

-- An entry whose new state has no live pid, where there was none, changes nothing.
pub live_pids-set_same :
    (ps : List Proc) (i : ℕ) (p q : Proc)
    → get_elem? ps i ≡ some p
    → live_pid q ≡ live_pid p
    → live_pids (set ps i q) ≡ live_pids ps
live_pids-set_same ps i p q at_i same =
    map-set live_pid ps i q
    ∙ ap (λ v. set (live_pids ps) i v) same
    ∙ set-get_elem? (live_pids ps) i (get_elem?-map-some live_pid ps i at_i)

Absent-get :
    (a : ℕ) (vs : List (Option ℕ)) (i : ℕ) (b : ℕ)
    → Absent a vs
    → get_elem? vs i ≡ some (some b)
    → a ≢ b
Absent-get a [] i b h e = absurd (ground arith)
Absent-get a (none ∷ vs) zero b h e = absurd (ground arith)
Absent-get a (some c ∷ vs) zero b h e = let same : c ≡ b = ground arith in rw (← same) h.0
Absent-get a (none ∷ vs) (suc i) b h e = Absent-get a vs i b h e
Absent-get a (some c ∷ vs) (suc i) b h e = Absent-get a vs i b h.1 e

-- Two places that hold the same pid are one place.
pub AreDistinct-injective :
    (n : ℕ) (vs : List (Option ℕ)) (i j : ℕ) (a b : ℕ)
    → AreDistinct n vs
    → get_elem? vs i ≡ some (some a)
    → get_elem? vs j ≡ some (some b)
    → a ≡ b
    → i ≡ j
AreDistinct-injective n [] i j a b h p q e = absurd (ground arith)
AreDistinct-injective n (v ∷ vs) zero zero a b h p q e = refl
AreDistinct-injective n (none ∷ vs) zero (suc j) a b h p q e = absurd (ground arith)
AreDistinct-injective n (none ∷ vs) (suc i) zero a b h p q e = absurd (ground arith)
AreDistinct-injective n (some c ∷ vs) zero (suc j) a b h p q e =
    absurd (Absent-get c vs j b h.1 q (ground arith))
AreDistinct-injective n (some c ∷ vs) (suc i) zero a b h p q e =
    absurd (Absent-get c vs i a h.1 p (ground arith))
AreDistinct-injective n (none ∷ vs) (suc i) (suc j) a b h p q e =
    ap suc (AreDistinct-injective n vs i j a b h p q e)
AreDistinct-injective n (some c ∷ vs) (suc i) (suc j) a b h p q e =
    ap suc (AreDistinct-injective n vs i j a b h.2 p q e)
