-- ===== src/Fs/Path/Elements.antt =====
-- fs.c: `skipelem` takes a path apart into its elements.
use os.Base.{
  ℕ, ◌≤◌, ◌<◌, ◌≡◌, refl, sym, ap, ◌∙◌, ◌⊎◌, inl, inr, true, false, Option, none, some, List, [],
  ◌∷◌, ◌==◌, if◌then◌else◌, take, length, arith, Bool-cases,
}
use os.Fs.Path.{slash, dirsiz, skip_slashes, split_elem, skipelem}

-- The pieces between slashes, and the elements: the pieces that are not empty.
abbrev pub add_front : ℕ → List (List ℕ) → List (List ℕ)
add_front c [] = (c ∷ []) ∷ []
add_front c (p ∷ ps) = (c ∷ p) ∷ ps

abbrev pub pieces : List ℕ → List (List ℕ)
pieces [] = [] ∷ []
pieces (c ∷ path) = if c == slash then [] ∷ pieces path else add_front c (pieces path)

abbrev pub keep : List ℕ → List (List ℕ) → List (List ℕ)
keep [] ps = ps
keep (c ∷ p) ps = (c ∷ p) ∷ ps

abbrev pub not_empty : List (List ℕ) → List (List ℕ)
not_empty [] = []
not_empty (p ∷ ps) = keep p (not_empty ps)

abbrev pub elements : List ℕ → List (List ℕ)
elements path = not_empty (pieces path)

elements-skip_slashes : (path : List ℕ) → elements (skip_slashes path) ≡ elements path
unfolding skip_slashes
elements-skip_slashes [] = refl
elements-skip_slashes (c ∷ path) = elim (Bool-cases (c == slash)) [
  | inl s ↦ rw s (elements-skip_slashes path)
  | inr plain ↦ rw plain (rw plain refl)
]

-- A path without a leading slash.
abbrev pub StartsPlain : List ℕ → Type 0
StartsPlain [] = Unit {0}
StartsPlain (c ∷ path) = (c == slash) ≡ false

skip_slashes-StartsPlain : (path : List ℕ) → StartsPlain (skip_slashes path)
unfolding skip_slashes
skip_slashes-StartsPlain [] = tt
skip_slashes-StartsPlain (c ∷ path) = elim (Bool-cases (c == slash)) [
  | inl s ↦ rw s (skip_slashes-StartsPlain path)
  | inr plain ↦ rw plain plain
]

skip_slashes-le : (path : List ℕ) → length (skip_slashes path) ≤ length path
unfolding skip_slashes
skip_slashes-le [] = omega arith
skip_slashes-le (c ∷ path) = ground (arith, skip_slashes-le path)

-- The pieces behind the first, and what `split_elem` leaves: it begins with a slash if not empty.
abbrev pieces_behind : List ℕ → List (List ℕ)
pieces_behind [] = []
pieces_behind (c ∷ path) = pieces path

abbrev StartsSlash : List ℕ → Type 0
StartsSlash [] = Unit {0}
StartsSlash (c ∷ path) = (c == slash) ≡ true

pieces-split_elem :
    (path : List ℕ)
    → (pieces path ≡ (split_elem path).0 ∷ pieces_behind (split_elem path).1)
      × StartsSlash (split_elem path).1
      × (length (split_elem path).1 ≤ length path)
unfolding split_elem
pieces-split_elem [] = (refl, tt, omega arith)
pieces-split_elem (c ∷ path) = elim (Bool-cases (c == slash)) [
  | inl s ↦ rw s (refl, s, omega arith)
  | inr plain ↦
      let (first, behind, le) = pieces-split_elem path in
      rw plain (ap (add_front c) first, behind, omega (arith, le))
]

not_empty-pieces_behind :
    (path : List ℕ) → StartsSlash path → not_empty (pieces_behind path) ≡ elements path
not_empty-pieces_behind [] h = refl
not_empty-pieces_behind (c ∷ path) h = rw h refl

split_elem-plain :
    (c : ℕ) (from : List ℕ)
    → (c == slash) ≡ false
    → split_elem (c ∷ from) ≡ (c ∷ (split_elem from).0, (split_elem from).1)
unfolding split_elem
split_elem-plain c from plain = rw plain refl

elements-plain :
    (c : ℕ) (from : List ℕ)
    → (c == slash) ≡ false
    → elements (c ∷ from) ≡ (c ∷ (split_elem from).0) ∷ elements (skip_slashes (split_elem from).1)
elements-plain c from plain =
    let (first, behind, le) = pieces-split_elem from in
    rw plain (
      ap (λ ps. not_empty (add_front c ps)) first
      ∙ ap (λ (l : List (List ℕ)). (c ∷ (split_elem from).0) ∷ l)
          (not_empty-pieces_behind (split_elem from).1 behind
            ∙ sym (elements-skip_slashes (split_elem from).1)))

abbrev front : List ℕ → Option (List ℕ × List ℕ)
front [] = none
front (c ∷ from) =
    some (take dirsiz (split_elem (c ∷ from)).0, skip_slashes (split_elem (c ∷ from)).1)

skipelem-front : (path p : List ℕ) → skip_slashes path ≡ p → skipelem path ≡ front p
unfolding skipelem
skipelem-front path [] e = rw (skipelem, e) refl
skipelem-front path (c ∷ from) e = rw (skipelem, e) refl

-- `skipelem` gives none exactly for a path without elements. Else it gives the first element, cut to
-- `DIRSIZ` bytes, and a shorter path that has the other elements and no slash in front.
skipelem_lem :
    (path : List ℕ)
    → ((skipelem path ≡ none) × (elements path ≡ []))
      ⊎ ((e : List ℕ) × (rest : List ℕ) × (skipelem path ≡ some (take dirsiz e, rest))
          × (elements path ≡ e ∷ elements rest)
          × StartsPlain rest
          × (length rest < length path))
skipelem_lem path =
    by_front (skip_slashes path) refl (skip_slashes-StartsPlain path) (skip_slashes-le path)
  where
    by_front :
        (p : List ℕ)
        → skip_slashes path ≡ p
        → StartsPlain p
        → length p ≤ length path
        → ((skipelem path ≡ none) × (elements path ≡ []))
          ⊎ ((e : List ℕ) × (rest : List ℕ) × (skipelem path ≡ some (take dirsiz e, rest))
              × (elements path ≡ e ∷ elements rest)
              × StartsPlain rest
              × (length rest < length path))
    by_front [] e plain le =
        inl (skipelem-front path [] e, sym (elements-skip_slashes path) ∙ ap elements e)
    by_front (c ∷ from) e plain le =
        let r : List ℕ = (split_elem from).1 in
        inr (
          c ∷ (split_elem from).0,
          skip_slashes r,
          skipelem-front path (c ∷ from) e
              ∙ ap (λ (s : List ℕ × List ℕ). some (take dirsiz s.0, skip_slashes s.1))
                  (split_elem-plain c from plain),
          sym (elements-skip_slashes path) ∙ ap elements e ∙ elements-plain c from plain,
          skip_slashes-StartsPlain r,
          omega (arith, le, skip_slashes-le r, (pieces-split_elem from).2),
        )
