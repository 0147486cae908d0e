-- ===== src/Grep/Matches.antt =====
-- grep.c: what the pattern matcher accepts, by rules.
use os.Base.{
  ℕ, ◌≡◌, ◌≢◌, refl, ap, ◌⊎◌, inl, inr, ◌↔◌, Bool, true, List, [], ◌∷◌, ◌++◌, ◌==◌, arith,
  Bool-cases,
}
use mathlib.Core.Path.{subst}
use os.Grep.{star, dot, dollar, caret, matchstar, matchhere, search_from, matches}

-- The byte `x` of a text fits the byte `c` of a pattern.
abbrev pub Fits : ℕ → ℕ → Type 0
Fits c x = (c ≡ dot) ⊎ (c ≡ x)

-- The pattern fits a first part of the text.
pub data Here : List ℕ → List ℕ → Type 0 where
  empty : (text : List ℕ) → Here [] text
  end : (c : ℕ) → c ≡ dollar → Here (c ∷ []) []
  last : (c x : ℕ) (text : List ℕ) → c ≢ dollar → Fits c x → Here (c ∷ []) (x ∷ text)
  byte :
      (c d x : ℕ) (re text : List ℕ)
      → d ≢ star
      → Fits c x
      → Here (d ∷ re) text
      → Here (c ∷ d ∷ re) (x ∷ text)
  none : (c d : ℕ) (re text : List ℕ) → d ≡ star → Here re text → Here (c ∷ d ∷ re) text
  more :
      (c d x : ℕ) (re text : List ℕ)
      → d ≡ star
      → Fits c x
      → Here (c ∷ d ∷ re) text
      → Here (c ∷ d ∷ re) (x ∷ text)

matchstar_sound :
    (c d : ℕ) (re text : List ℕ)
    → d ≡ star
    → ((t : List ℕ) → matchhere re t ≡ true → Here re t)
    → matchstar c (matchhere re) text ≡ true
    → Here (c ∷ d ∷ re) text
unfolding matchstar
matchstar_sound c d re [] s rec h = none c d re [] s (rec [] h)
matchstar_sound c d re (x ∷ text) s rec h = elim (Bool-cases (matchhere re (x ∷ text))) [
  | inl now ↦ none c d re (x ∷ text) s (rec (x ∷ text) now)
  | inr later ↦
      more c d x re text s (ground arith) (matchstar_sound c d re text s rec (ground arith))
]

matchhere_sound : (re text : List ℕ) → matchhere re text ≡ true → Here re text
unfolding matchhere
matchhere_sound [] text h = empty text
matchhere_sound (c ∷ []) [] h = end c (ground arith)
matchhere_sound (c ∷ []) (x ∷ text) h = last c x text (ground arith) (ground arith)
matchhere_sound (c ∷ d ∷ re) [] h = elim (Bool-cases (d == star)) [
  | inl s ↦ matchstar_sound c d re [] (ground arith) (matchhere_sound re) (rw s at h)
  | inr plain ↦ absurd (ground arith)
]
matchhere_sound (c ∷ d ∷ re) (x ∷ text) h = elim (Bool-cases (d == star)) [
  | inl s ↦ matchstar_sound c d re (x ∷ text) (ground arith) (matchhere_sound re) (rw s at h)
  | inr plain ↦
      byte c d x re text (ground arith) (ground arith)
        (matchhere_sound (d ∷ re) text (ground arith))
]

matchstar_now :
    (c : ℕ) (here : List ℕ → Bool) (text : List ℕ) → here text ≡ true → matchstar c here text ≡ true
unfolding matchstar
matchstar_now c here [] h = h
matchstar_now c here (x ∷ text) h = rw h

matchhere_complete : {re text : List ℕ} → Here re text → matchhere re text ≡ true
unfolding matchhere
matchhere_complete (empty text) = refl
matchhere_complete (end c e) = ground arith
matchhere_complete (last c x text ne fits) = ground arith
matchhere_complete (byte c d x re text ne fits h) = ground (arith, matchhere_complete h)
matchhere_complete (none c d re text e h) =
    ground (arith, matchstar_now c (matchhere re) text (matchhere_complete h))
matchhere_complete (more c d x re text e fits h) =
    let rest : matchhere (c ∷ d ∷ re) text ≡ true = matchhere_complete h in ground arith

-- The pattern fits at some place of the text.
abbrev pub Occurs : List ℕ → List ℕ → Type 0
Occurs re text = (before : List ℕ) × (rest : List ℕ) × (before ++ rest ≡ text) × Here re rest

search_from_sound : (re text : List ℕ) → search_from re text ≡ true → Occurs re text
unfolding search_from
search_from_sound re [] h = ([], [], refl, matchhere_sound re [] h)
search_from_sound re (x ∷ text) h = elim (Bool-cases (matchhere re (x ∷ text))) [
  | inl now ↦ ([], x ∷ text, refl, matchhere_sound re (x ∷ text) now)
  | inr later ↦
      let (before, rest, e, found) = search_from_sound re text (rw later at h) in
      (x ∷ before, rest, ap (λ (l : List ℕ). x ∷ l) e, found)
]

search_from_complete :
    (re text before rest : List ℕ)
    → before ++ rest ≡ text
    → Here re rest
    → search_from re text ≡ true
unfolding search_from
search_from_complete re [] [] rest e h = subst (λ t. matchhere re t ≡ true) e (matchhere_complete h)
search_from_complete re [] (y ∷ before) rest e h = absurd (ground arith)
search_from_complete re (x ∷ text) [] rest e h =
    let now : matchhere re (x ∷ text) ≡ true =
      subst (λ t. matchhere re t ≡ true) e (matchhere_complete h) in
    rw now
search_from_complete re (x ∷ text) (y ∷ before) rest e h =
    ground (arith, search_from_complete re text before rest (ground arith) h)

abbrev pub Accepts : List ℕ → List ℕ → Type 0
Accepts [] text = Unit {0}
Accepts (c ∷ re) text = ((c ≡ caret) × Here re text) ⊎ ((c ≢ caret) × Occurs (c ∷ re) text)

-- `match` accepts exactly the texts with a place where the pattern fits by the rules of `Here`: the
-- beginning, behind a caret. The empty pattern fits every text.
pub matches_iff : (re text : List ℕ) → (matches re text ≡ true) ↔ Accepts re text
unfolding matches
matches_iff [] text = (λ e. tt, λ h. search_from_complete [] text [] text refl (empty text))
matches_iff (c ∷ re) text = elim (Bool-cases (c == caret)) [
  | inl anchored ↦ rw anchored (
    λ h. inl (ground arith, matchhere_sound re text h),
    λ h. elim h [
      | inl (e, found) ↦ matchhere_complete found
      | inr (ne, found) ↦ absurd (ground arith)
    ],
  )
  | inr free ↦ rw free (
    λ h. inr (ground arith, search_from_sound (c ∷ re) text h),
    λ h. elim h [
      | inl (e, found) ↦ absurd (ground arith)
      | inr (ne, (before, rest, e, found)) ↦ search_from_complete (c ∷ re) text before rest e found
    ],
  )
]
