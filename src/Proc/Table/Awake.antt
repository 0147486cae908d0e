-- ===== src/Proc/Table/Awake.antt =====
-- The wake-ups of `exit`: nobody who waits for the caller is left asleep.
use os.Base.{
  ℕ, zero, suc, ◌+◌, ◌≤◌, ◌<◌, ◌≡◌, ◌≢◌, refl, ap, ◌∙◌, ◌⊎◌, inl, inr, true, false, ◌&&◌, some,
  List, [], ◌∷◌, length, get_elem?, set, arith, Bool-cases, Option-cases, get_elem?-set_ne,
  get_elem?-lt, ◌==◌,
}
use os.Proc.{Proc, Chan, of_proc, chan_eq, is_sleeping, is_zombie}
use os.Proc.Table.{wake, wakeup1, is_parent, chan_of, reparent_one, reparent, exit_table}
use os.Proc.Table.Pids.{live_pids, live_pids-set_same}
use os.Proc.Table.Wakeup.{NoSleeper, NoSleeper-wakeup1, get_elem?-wakeup1, live_pids-wakeup1}
use os.Proc.Table.Exit.{before_zombie, exit_table_cases}

-- An entry that sleeps on no channel may be put anywhere.
NoSleeper-set :
    (c : Chan) (ps : List Proc) (i : ℕ) (q : Proc)
    → (is_sleeping q.state && chan_eq q.chan c) ≡ false
    → NoSleeper c ps
    → NoSleeper c (set ps i q)
NoSleeper-set c [] i q h n = tt
NoSleeper-set c (p ∷ ps) zero q h n = (h, n.1)
NoSleeper-set c (p ∷ ps) (suc i) q h n = (n.0, NoSleeper-set c ps i q h n.1)

NoSleeper-get :
    (c : Chan) (ps : List Proc) (i : ℕ) (p : Proc)
    → get_elem? ps i ≡ some p
    → NoSleeper c ps
    → (is_sleeping p.state && chan_eq p.chan c) ≡ false
NoSleeper-get c [] i p e n = absurd (ground arith)
NoSleeper-get c (q ∷ ps) zero p e n = let same : q ≡ p = ground arith in rw (← same) n.0
NoSleeper-get c (q ∷ ps) (suc i) p e n = NoSleeper-get c ps i p e n.1

NoSleeper-wakeup1_other :
    (c d : Chan) (ps : List Proc) → NoSleeper c ps → NoSleeper c (wakeup1 d ps)
unfolding wakeup1
NoSleeper-wakeup1_other c d [] n = tt
NoSleeper-wakeup1_other c d (p ∷ ps) n = (still, NoSleeper-wakeup1_other c d ps n.1)
  where
    still : (is_sleeping (wake d p).state && chan_eq (wake d p).chan c) ≡ false
    still = unfold wake in ground arith

module _ (cur initproc : ℕ) where
  -- One round of the loop of `exit`, by cases.
  pub reparent_one_cases :
      (i : ℕ) (ps : List Proc)
      → (reparent_one cur initproc i ps ≡ ps)
        ⊎ ((p : Proc) × (get_elem? ps i ≡ some p)
            × (is_parent cur p.parent ≡ true)
            × (((is_zombie p.state ≡ false)
                  × (reparent_one cur initproc i ps
                      ≡ set ps i (record p { parent = some initproc })))
                ⊎ ((is_zombie p.state ≡ true)
                    × (reparent_one cur initproc i ps
                        ≡ wakeup1
                            (of_proc initproc)
                            (set ps i (record p { parent = some initproc }))))))
  unfolding reparent_one
  reparent_one_cases i ps = elim (Option-cases (get_elem? ps i)) [
    | inl past ↦ inl (rw (past, reparent_one) refl)
    | inr (p, at_i) ↦ elim (Bool-cases (is_parent cur p.parent)) [
      | inr other ↦ inl (rw (at_i, reparent_one) (rw other refl))
      | inl child ↦ elim (Bool-cases (is_zombie p.state)) [
        | inr alive ↦
            inr (p, at_i, child, inl (alive, rw (at_i, reparent_one) (rw (child, alive) refl)))
        | inl dead ↦
            inr (p, at_i, child, inr (dead, rw (at_i, reparent_one) (rw (child, dead) refl)))
      ]
    ]
  ]

  NoSleeper-reparent_one :
      (c : Chan) (i : ℕ) (ps : List Proc)
      → NoSleeper c ps
      → NoSleeper c (reparent_one cur initproc i ps)
  NoSleeper-reparent_one c i ps n = elim (reparent_one_cases i ps) [
    | inl e ↦ rw e n
    | inr (p, at_i, _, inl (_, e)) ↦ rw e (NoSleeper-set c ps i _ (NoSleeper-get c ps i p at_i n) n)
    | inr (p, at_i, _, inr (_, e)) ↦ rw e (
        NoSleeper-wakeup1_other c (of_proc initproc) _
          (NoSleeper-set c ps i _ (NoSleeper-get c ps i p at_i n) n))
  ]

  NoSleeper-reparent :
      (c : Chan) (n i : ℕ) (ps : List Proc)
      → NoSleeper c ps
      → NoSleeper c (reparent cur initproc n i ps)
  unfolding reparent
  NoSleeper-reparent c zero i ps h = h
  NoSleeper-reparent c (suc n) i ps h =
      NoSleeper-reparent c n (i + 1) (reparent_one cur initproc i ps)
        (NoSleeper-reparent_one c i ps h)

  NoSleeper-exit_table :
      (c : Chan) (curproc : Proc) (ps : List Proc)
      → NoSleeper c (before_zombie cur initproc curproc ps)
      → NoSleeper c (exit_table cur initproc curproc ps)
  NoSleeper-exit_table c curproc ps h = elim (exit_table_cases cur initproc curproc ps) [
    | inl e ↦ rw e h
    | inr (p, _, e) ↦ rw e (NoSleeper-set c _ cur _ refl h)
  ]

  -- After `exit` nobody sleeps on the channel of the caller's parent, where `wait` sleeps.
  pub exit_table_wakes_parent :
      (curproc : Proc) (ps : List Proc)
      → NoSleeper (chan_of curproc.parent) (exit_table cur initproc curproc ps)
  exit_table_wakes_parent curproc ps = NoSleeper-exit_table (chan_of curproc.parent) curproc ps (
      unfold before_zombie in
      NoSleeper-reparent (chan_of curproc.parent) (length ps) 0 _
        (NoSleeper-wakeup1 (chan_of curproc.parent) ps))

  -- A ZOMBIE child of `cur` at index `j`.
  abbrev Orphan : ℕ → List Proc → Type 0
  Orphan j ps =
      (p : Proc) × (get_elem? ps j ≡ some p)
      × (is_parent cur p.parent ≡ true)
      × (is_zombie p.state ≡ true)

  Orphan-wakeup1 : (c : Chan) (j : ℕ) (ps : List Proc) → Orphan j ps → Orphan j (wakeup1 c ps)
  Orphan-wakeup1 c j ps (p, at_j, child, dead) = (
    wake c p,
    get_elem?-wakeup1 c ps j at_j,
    (unfold wake in ground arith),
    (unfold wake in ground arith),
  )

  Orphan-set : (i j : ℕ) (ps : List Proc) (q : Proc) → i ≢ j → Orphan j ps → Orphan j (set ps i q)
  Orphan-set i j ps q ne (p, at_j, child, dead) =
      (p, get_elem?-set_ne ps i j q ne ∙ at_j, child, dead)

  Orphan-reparent_one :
      (i j : ℕ) (ps : List Proc) → i ≢ j → Orphan j ps → Orphan j (reparent_one cur initproc i ps)
  Orphan-reparent_one i j ps ne o = elim (reparent_one_cases i ps) [
    | inl e ↦ rw e o
    | inr (p, at_i, _, inl (_, e)) ↦ rw e (Orphan-set i j ps _ ne o)
    | inr (p, at_i, _, inr (_, e)) ↦
        rw e (Orphan-wakeup1 (of_proc initproc) j _ (Orphan-set i j ps _ ne o))
  ]

  reparent_one-Orphan :
      (j : ℕ) (ps : List Proc)
      → Orphan j ps
      → NoSleeper (of_proc initproc) (reparent_one cur initproc j ps)
  unfolding reparent_one
  reparent_one-Orphan j ps (p, at_j, child, dead) =
      rw (at_j, reparent_one) (rw (child, dead) (NoSleeper-wakeup1 (of_proc initproc) _))

  reparent-Orphan :
      (n i j : ℕ) (ps : List Proc)
      → i ≤ j
      → j < i + n
      → Orphan j ps
      → NoSleeper (of_proc initproc) (reparent cur initproc n i ps)
  unfolding reparent
  reparent-Orphan zero i j ps ge lt o = absurd (omega arith)
  reparent-Orphan (suc n) i j ps ge lt o = elim (Bool-cases (i == j)) [
    | inl now ↦
        let e : i ≡ j = ground arith in
        NoSleeper-reparent (of_proc initproc) n (i + 1) (reparent_one cur initproc i ps)
          (rw e (reparent_one-Orphan j ps o))
    | inr later ↦
        let ne : i ≢ j = ground arith in
        reparent-Orphan n (i + 1) j (reparent_one cur initproc i ps) (omega arith) (omega arith)
          (Orphan-reparent_one i j ps ne o)
  ]

  -- If a child of the caller is a ZOMBIE, then after `exit` nobody sleeps on init's channel.
  pub exit_table_wakes_init :
      (curproc : Proc) (ps : List Proc) (j : ℕ) (p : Proc)
      → get_elem? ps j ≡ some p
      → is_parent cur p.parent ≡ true
      → is_zombie p.state ≡ true
      → NoSleeper (of_proc initproc) (exit_table cur initproc curproc ps)
  exit_table_wakes_init curproc ps j p at_j child dead =
      NoSleeper-exit_table (of_proc initproc) curproc ps (
        unfold before_zombie in
        reparent-Orphan (length ps) 0 j _ (omega arith) (omega (arith, get_elem?-lt ps j at_j))
          (Orphan-wakeup1 (chan_of curproc.parent) j ps (p, at_j, child, dead)))

  live_pids-reparent_one :
      (i : ℕ) (ps : List Proc) → live_pids (reparent_one cur initproc i ps) ≡ live_pids ps
  live_pids-reparent_one i ps = elim (reparent_one_cases i ps) [
    | inl e ↦ ap live_pids e
    | inr (p, at_i, _, inl (_, e)) ↦ ap live_pids e ∙ live_pids-set_same ps i p _ at_i refl
    | inr (p, at_i, _, inr (_, e)) ↦
        ap live_pids e
        ∙ live_pids-wakeup1 (of_proc initproc) _
        ∙ live_pids-set_same ps i p _ at_i refl
  ]

  live_pids-reparent :
      (n i : ℕ) (ps : List Proc) → live_pids (reparent cur initproc n i ps) ≡ live_pids ps
  unfolding reparent
  live_pids-reparent zero i ps = refl
  live_pids-reparent (suc n) i ps =
      live_pids-reparent n (i + 1) (reparent_one cur initproc i ps) ∙ live_pids-reparent_one i ps

  pub live_pids-before_zombie :
      (curproc : Proc) (ps : List Proc)
      → live_pids (before_zombie cur initproc curproc ps) ≡ live_pids ps
  unfolding before_zombie
  live_pids-before_zombie curproc ps =
      live_pids-reparent (length ps) 0 (wakeup1 (chan_of curproc.parent) ps)
      ∙ live_pids-wakeup1 (chan_of curproc.parent) ps
