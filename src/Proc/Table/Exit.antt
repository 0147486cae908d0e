-- ===== src/Proc/Table/Exit.antt =====
-- What `exit` leaves: no children, an awake parent, and an awake init if it inherits a ZOMBIE.
use os.Base.{
  ℕ, zero, suc, ◌+◌, ◌≡◌, refl, sym, ap, ◌∙◌, ◌⊎◌, inl, inr, true, false, Option, none, some, List,
  [], ◌∷◌, map, length, get_elem?, set, arith, Bool-cases, Option-cases, if◌then◌else◌, map-set,
  get_elem?-map-some, get_elem?-map-none, set-get_elem?, length-map,
}
use os.Proc.{Proc, Chan, of_proc, is_zombie, zombie}
use os.Proc.Table.{wake, wakeup1, is_parent, chan_of, reparent_one, reparent, exit_table}
use os.Proc.Table.Wakeup.{length-wakeup1}

abbrev pub parents : List Proc → List (Option ℕ)
parents = map (λ p. p.parent)

parents-wakeup1 : (c : Chan) (ps : List Proc) → parents (wakeup1 c ps) ≡ parents ps
unfolding wakeup1
parents-wakeup1 c [] = refl
parents-wakeup1 c (p ∷ ps) = λ i. parent-wake c p i ∷ parents-wakeup1 c ps i
  where
    parent-wake : (c : Chan) (p : Proc) → (wake c p).parent ≡ p.parent
    parent-wake c p = unfold wake in ground arith

module _ (cur initproc : ℕ) where
  -- A child of `cur` becomes init's.
  abbrev pub adopt : Option ℕ → Option ℕ
  adopt v = if is_parent cur v then some initproc else v

  abbrev adopt_at : ℕ → List (Option ℕ) → List (Option ℕ)
  adopt_at i [] = []
  adopt_at zero (v ∷ vs) = adopt v ∷ vs
  adopt_at (suc i) (v ∷ vs) = v ∷ adopt_at i vs

  abbrev adopt_from : ℕ → List (Option ℕ) → List (Option ℕ)
  adopt_from i [] = []
  adopt_from zero (v ∷ vs) = adopt v ∷ adopt_from zero vs
  adopt_from (suc i) (v ∷ vs) = v ∷ adopt_from i vs

  adopt_from-adopt_at :
      (i : ℕ) (vs : List (Option ℕ)) → adopt_from (i + 1) (adopt_at i vs) ≡ adopt_from i vs
  adopt_from-adopt_at i [] = refl
  adopt_from-adopt_at zero (v ∷ vs) = refl
  adopt_from-adopt_at (suc i) (v ∷ vs) =
      let e : suc i + 1 ≡ suc (i + 1) = omega arith in
      rw e (ap (λ l. v ∷ l) (adopt_from-adopt_at i vs))

  adopt_from_end : (i : ℕ) (vs : List (Option ℕ)) → i ≡ length vs → adopt_from i vs ≡ vs
  adopt_from_end i [] e = refl
  adopt_from_end zero (v ∷ vs) e = absurd (omega arith)
  adopt_from_end (suc i) (v ∷ vs) e = ap (λ l. v ∷ l) (adopt_from_end i vs (omega arith))

  adopt_from-zero : (vs : List (Option ℕ)) → adopt_from zero vs ≡ map adopt vs
  adopt_from-zero [] = refl
  adopt_from-zero (v ∷ vs) = ap (λ l. adopt v ∷ l) (adopt_from-zero vs)

  set-adopt_at :
      (vs : List (Option ℕ)) (i : ℕ) (v : Option ℕ)
      → get_elem? vs i ≡ some v
      → adopt_at i vs ≡ set vs i (adopt v)
  set-adopt_at [] i v e = refl
  set-adopt_at (w ∷ vs) zero v e = let same : w ≡ v = ground arith in ap (λ x. adopt x ∷ vs) same
  set-adopt_at (w ∷ vs) (suc i) v e = ap (λ l. w ∷ l) (set-adopt_at vs i v e)

  adopt_at_past : (vs : List (Option ℕ)) (i : ℕ) → get_elem? vs i ≡ none → adopt_at i vs ≡ vs
  adopt_at_past [] i e = refl
  adopt_at_past (w ∷ vs) zero e = absurd (ground arith)
  adopt_at_past (w ∷ vs) (suc i) e = ap (λ l. w ∷ l) (adopt_at_past vs i e)

  parents-reparent_one :
      (i : ℕ) (ps : List Proc) → parents (reparent_one cur initproc i ps) ≡ adopt_at i (parents ps)
  parents-reparent_one i ps = elim (Option-cases (get_elem? ps i)) [
    | inl past ↦
        ap parents (stay past)
        ∙ sym (adopt_at_past (parents ps) i (get_elem?-map-none (λ p. p.parent) ps i past))
    | inr (p, at_i) ↦
        by_case p at_i (Bool-cases (is_parent cur p.parent)) (Bool-cases (is_zombie p.state))
        ∙ sym (set-adopt_at (parents ps) i p.parent (get_elem?-map-some (λ p. p.parent) ps i at_i))
  ]
    where
      stay : get_elem? ps i ≡ none → reparent_one cur initproc i ps ≡ ps
      stay past = unfold reparent_one in rw (past, reparent_one) refl

      by_case :
          (p : Proc)
          → get_elem? ps i ≡ some p
          → (is_parent cur p.parent ≡ true) ⊎ (is_parent cur p.parent ≡ false)
          → (is_zombie p.state ≡ true) ⊎ (is_zombie p.state ≡ false)
          → parents (reparent_one cur initproc i ps) ≡ set (parents ps) i (adopt p.parent)
      by_case p at_i (inl child) (inl dead) =
          unfold reparent_one in
          rw (at_i, reparent_one)
            (rw (child, dead)
              (parents-wakeup1 (of_proc initproc) _ ∙ map-set (λ p. p.parent) ps i _))
      by_case p at_i (inl child) (inr alive) =
          unfold reparent_one in
          rw (at_i, reparent_one) (rw (child, alive) (map-set (λ p. p.parent) ps i _))
      by_case p at_i (inr other) z =
          unfold reparent_one in
          rw (at_i, reparent_one)
            (rw other
              (sym (set-get_elem? (parents ps) i (get_elem?-map-some (λ p. p.parent) ps i at_i))))

  length-adopt_at : (i : ℕ) (vs : List (Option ℕ)) → length (adopt_at i vs) ≡ length vs
  length-adopt_at i [] = refl
  length-adopt_at zero (v ∷ vs) = refl
  length-adopt_at (suc i) (v ∷ vs) = ap suc (length-adopt_at i vs)

  length-reparent_one :
      (i : ℕ) (ps : List Proc) → length (reparent_one cur initproc i ps) ≡ length ps
  length-reparent_one i ps =
      sym (length-map (λ p. p.parent) (reparent_one cur initproc i ps))
      ∙ ap length (parents-reparent_one i ps)
      ∙ length-adopt_at i (parents ps)
      ∙ length-map (λ p. p.parent) ps

  parents-reparent :
      (n i : ℕ) (ps : List Proc)
      → i + n ≡ length ps
      → parents (reparent cur initproc n i ps) ≡ adopt_from i (parents ps)
  unfolding reparent
  parents-reparent zero i ps e =
      sym (adopt_from_end i (parents ps) (omega (arith, length-map (λ (p : Proc). p.parent) ps)))
  parents-reparent (suc n) i ps e =
      parents-reparent n (i + 1) (reparent_one cur initproc i ps)
        (omega (arith, length-reparent_one i ps))
      ∙ ap (adopt_from (i + 1)) (parents-reparent_one i ps)
      ∙ adopt_from-adopt_at i (parents ps)

  -- The table when `exit` marks the caller ZOMBIE.
  unfoldable pub before_zombie : Proc → List Proc → List Proc
  before_zombie curproc ps =
      reparent cur initproc (length ps) 0 (wakeup1 (chan_of curproc.parent) ps)

  parents-before_zombie :
      (curproc : Proc) (ps : List Proc)
      → parents (before_zombie curproc ps) ≡ map adopt (parents ps)
  unfolding before_zombie
  parents-before_zombie curproc ps =
      parents-reparent (length ps) 0 (wakeup1 (chan_of curproc.parent) ps)
        (omega (arith, length-wakeup1 (chan_of curproc.parent) ps))
      ∙ adopt_from-zero (parents (wakeup1 (chan_of curproc.parent) ps))
      ∙ ap (map adopt) (parents-wakeup1 (chan_of curproc.parent) ps)

  pub exit_table_cases :
      (curproc : Proc) (ps : List Proc)
      → (exit_table cur initproc curproc ps ≡ before_zombie curproc ps)
        ⊎ ((p : Proc) × (get_elem? (before_zombie curproc ps) cur ≡ some p)
            × (exit_table cur initproc curproc ps
                ≡ set (before_zombie curproc ps) cur (record p { state = zombie })))
  unfolding exit_table before_zombie
  exit_table_cases curproc ps = elim (Option-cases (get_elem? (before_zombie curproc ps) cur)) [
    | inl past ↦ inl (rw (past, exit_table) refl)
    | inr (p, at_cur) ↦ inr (p, at_cur, rw (at_cur, exit_table) refl)
  ]

  -- `exit` passes every child to init, and changes no other parent.
  pub parents-exit_table :
      (curproc : Proc) (ps : List Proc)
      → parents (exit_table cur initproc curproc ps) ≡ map adopt (parents ps)
  parents-exit_table curproc ps = elim (exit_table_cases curproc ps) [
    | inl e ↦ ap parents e ∙ parents-before_zombie curproc ps
    | inr (p, at_cur, e) ↦
        ap parents e
        ∙ map-set (λ p. p.parent) (before_zombie curproc ps) cur (record p { state = zombie })
        ∙ set-get_elem? (parents (before_zombie curproc ps)) cur
            (get_elem?-map-some (λ p. p.parent) (before_zombie curproc ps) cur at_cur)
        ∙ parents-before_zombie curproc ps
  ]
