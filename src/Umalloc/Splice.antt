-- ===== src/Umalloc/Splice.antt =====
-- umalloc.c: the list after `free` has put a block in its place.
use os.Base.{
  ℕ, ◌+◌, ◌≤◌, ◌<◌, ◌≡◌, ◌≢◌, ◌↔◌, ◌⊎◌, inl, inr, refl, ap, ◌∙◌, true, false, List, [], ◌∷◌, ◌==◌,
  ltb, Bool-cases, arith,
}
use os.Umalloc.{Heap, update, end_of, join_upper, join_lower}
use os.Umalloc.Chains.{
  Chain, Within, Covers, SameAt, AllSame, Chain-same, Chain-from, Covers-same, Above, Chain-Above,
  AllSame-Above,
}

pub update_self : (f : ℕ → ℕ) (a v : ℕ) → update f a v a ≡ v
update_self f a v = ground arith

pub update_ne : (f : ℕ → ℕ) (a v x : ℕ) → x ≢ a → update f a v x ≡ f x
update_ne f a v x ne = ground arith

pub upper_same : (h : Heap) (p bp a : ℕ) → a ≢ bp → SameAt h (join_upper h p bp) a
unfolding join_upper
upper_same h p bp a ne = elim (Bool-cases (end_of h bp == h.ptr p)) [
  | inl meets ↦ rw (meets) (
    update_ne h.ptr bp (h.ptr (h.ptr p)) a ne,
    update_ne h.size bp (h.size bp + h.size (h.ptr p)) a ne,
  )
  | inr gap ↦ rw (gap) (update_ne h.ptr bp (h.ptr p) a ne, refl)
]

pub lower_same : (h : Heap) (p bp a : ℕ) → a ≢ p → SameAt h (join_lower h p bp) a
unfolding join_lower
lower_same h p bp a ne = elim (Bool-cases (end_of h p == bp)) [
  | inl meets ↦
      rw (meets) (update_ne h.ptr p (h.ptr bp) a ne, update_ne h.size p (h.size p + h.size bp) a ne)
  | inr gap ↦ rw (gap) (update_ne h.ptr p bp a ne, refl)
]

upper_meets :
    (h : Heap) (p bp : ℕ)
    → (end_of h bp == h.ptr p) ≡ true
    → ((join_upper h p bp).ptr bp ≡ h.ptr (h.ptr p))
      × ((join_upper h p bp).size bp ≡ h.size bp + h.size (h.ptr p))
unfolding join_upper
upper_meets h p bp meets =
    rw (meets)
      (update_self h.ptr bp (h.ptr (h.ptr p)), update_self h.size bp (h.size bp + h.size (h.ptr p)))

upper_gap :
    (h : Heap) (p bp : ℕ)
    → (end_of h bp == h.ptr p) ≡ false
    → ((join_upper h p bp).ptr bp ≡ h.ptr p) × ((join_upper h p bp).size bp ≡ h.size bp)
unfolding join_upper
upper_gap h p bp gap = rw (gap) (update_self h.ptr bp (h.ptr p), refl)

lower_meets :
    (h : Heap) (p bp : ℕ)
    → (end_of h p == bp) ≡ true
    → ((join_lower h p bp).ptr p ≡ h.ptr bp) × ((join_lower h p bp).size p ≡ h.size p + h.size bp)
unfolding join_lower
lower_meets h p bp meets =
    rw (meets) (update_self h.ptr p (h.ptr bp), update_self h.size p (h.size p + h.size bp))

pub lower_gap :
    (h : Heap) (p bp : ℕ)
    → (end_of h p == bp) ≡ false
    → ((join_lower h p bp).ptr p ≡ bp) × ((join_lower h p bp).size p ≡ h.size p)
unfolding join_lower
lower_gap h p bp gap = rw (gap) (update_self h.ptr p bp, refl)

-- Two blocks that meet, and the block that has both their units.
pub Within-join :
    (h k : Heap) (q a x : ℕ)
    → end_of h q ≡ a
    → end_of k q ≡ end_of h a
    → Within k q x ↔ (Within h q x ⊎ Within h a x)
Within-join h k q a x meets whole = (
  λ w. elim (Bool-cases (ltb x a)) [
    | inl low ↦ let below : x < a = ground (arith, low) in inl (w.0, omega arith)
    | inr high ↦ let from : a ≤ x = ground (arith, high) in inr (from, omega (arith, w.1))
  ],
  λ w. elim w [
    | inl l ↦ (l.0, omega (arith, l.1))
    | inr r ↦ (omega (arith, r.0), omega (arith, r.1))
  ],
)

pub Within-same : (h k : Heap) (q x : ℕ) → k.size q ≡ h.size q → Within k q x ↔ Within h q x
Within-same h k q x same =
    (λ w. (w.0, omega (arith, w.1, same)), λ w. (w.0, omega (arith, w.1, same)))

-- Equivalences of unions.
pub union_assoc : {A B C D E : Type 0} → A ↔ (B ⊎ C) → D ↔ E → (A ⊎ D) ↔ (B ⊎ (C ⊎ E))
union_assoc f g = (
  λ x. elim x [
    | inl a ↦ elim (f.0 a) [ inl b ↦ inl b | inr c ↦ inr (inl c) ]
    | inr d ↦ inr (inr (g.0 d))
  ],
  λ x. elim x [
    | inl b ↦ inl (f.1 (inl b))
    | inr y ↦ elim y [ inl c ↦ inl (f.1 (inr c)) | inr e ↦ inr (g.1 e) ]
  ],
)

pub union_cong : {A B C D : Type 0} → A ↔ B → C ↔ D → (A ⊎ C) ↔ (B ⊎ D)
union_cong f g = (
  λ x. elim x [ inl a ↦ inl (f.0 a) | inr c ↦ inr (g.0 c) ],
  λ x. elim x [ inl b ↦ inl (f.1 b) | inr d ↦ inr (g.1 d) ],
)

-- After the join with the block above: the list behind `bp`, and what it covers.
abbrev pub Upper : ℕ → Heap → Heap → ℕ → List ℕ → Type 0
Upper base h k bp bs =
    (cs : List ℕ) × Chain base k bp cs
    × (0 < k.size bp)
    × ((x : ℕ) → Covers k (bp ∷ cs) x ↔ (Within h bp x ⊎ Covers h bs x))

module _ (base : ℕ) (h : Heap) (p bp : ℕ) (some_units : 0 < h.size bp) (over_base : base < bp) where
  pub Upper-last : Chain base h p [] → Upper base h (join_upper h p bp) bp []
  unfolding join_upper
  Upper-last c =
      let gap : (end_of h bp == h.ptr p) ≡ false = ground (arith, c.0) in
      rw (gap) ([], (update_self h.ptr bp (h.ptr p) ∙ c.0, tt), some_units, λ x. (λ c. c, λ c. c))

  pub Upper-next :
      (a : ℕ) (bs : List ℕ)
      → end_of h bp ≤ a
      → Chain base h p (a ∷ bs)
      → Upper base h (join_upper h p bp) bp (a ∷ bs)
  Upper-next a bs after c =
      let low : bp < a = omega arith in
      let above : Above a bs = Chain-Above base h a bs c.4 in
      let same : AllSame h (join_upper h p bp) bs =
        AllSame-Above h (join_upper h p bp) a bs (λ b less. upper_same h p bp b (λ e. omega arith))
          above in
      let same_a : SameAt h (join_upper h p bp) a = upper_same h p bp a (λ e. omega arith) in
      let k : Heap = join_upper h p bp in
      elim (Bool-cases (end_of h bp == h.ptr p)) [
        | inl meets ↦
            let (link, units) = upper_meets h p bp meets in
            let here : end_of h bp ≡ a = ground (arith, meets, c.0) in
            let sum : k.size bp ≡ h.size bp + h.size a =
              units ∙ ap (λ (b : ℕ). h.size bp + h.size b) c.0 in
            let whole : end_of k bp ≡ end_of h a = omega (arith, sum, here) in
            (
              bs,
              Chain-from base h k a bp bs (link ∙ ap h.ptr c.0) (omega arith) (omega (arith, whole))
                  same c.4,
              omega (arith, sum),
              λ x. union_assoc (Within-join h k bp a x here whole) (Covers-same h k bs x same),
            )
        | inr gap ↦
            let (link, units) = upper_gap h p bp gap in
            let apart : end_of h bp ≢ a = ground (arith, gap, c.0) in
            (
              a ∷ bs,
              (
                link ∙ c.0,
                low,
                omega (arith, units, after, apart),
                omega (arith, same_a.1, c.3),
                Chain-same base h k a bs same_a same c.4,
              ),
              omega (arith, units),
              λ x.
                  union_cong (Within-same h k bp x units)
                    (Covers-same h k (a ∷ bs) x (same_a, same)),
            )
      ]

-- After the join with the block below: the list behind `p`, and what it covers.
abbrev pub Lower : ℕ → Heap → Heap → ℕ → ℕ → List ℕ → Type 0
Lower base h k p bp cs =
    (ds : List ℕ) × Chain base k p ds
    × (h.size p ≤ k.size p)
    × ((x : ℕ) → Covers k (p ∷ ds) x ↔ (Within h p x ⊎ Covers h (bp ∷ cs) x))

pub lower_lem :
    (base : ℕ) (h : Heap) (p bp : ℕ) (cs : List ℕ)
    → p < bp
    → end_of h p ≤ bp
    → 0 < h.size bp
    → Chain base h bp cs
    → Lower base h (join_lower h p bp) p bp cs
lower_lem base h p bp cs less before some_units c =
    let k : Heap = join_lower h p bp in
    let above : Above bp cs = Chain-Above base h bp cs c in
    let same : AllSame h k cs =
      AllSame-Above h k bp cs (λ b low. lower_same h p bp b (λ e. omega arith)) above in
    let same_bp : SameAt h k bp = lower_same h p bp bp (λ e. omega arith) in
    elim (Bool-cases (end_of h p == bp)) [
      | inl meets ↦
          let (link, units) = lower_meets h p bp meets in
          let here : end_of h p ≡ bp = ground (arith, meets) in
          let whole : end_of k p ≡ end_of h bp = omega (arith, units, here) in
          (
            cs,
            Chain-from base h k bp p cs link (omega arith) (omega (arith, whole)) same c,
            omega (arith, units),
            λ x. union_assoc (Within-join h k p bp x here whole) (Covers-same h k cs x same),
          )
      | inr gap ↦
          let (link, units) = lower_gap h p bp gap in
          let apart : end_of h p ≢ bp = ground (arith, gap) in
          (
            bp ∷ cs,
            (
              link,
              less,
              omega (arith, units, before, apart),
              omega (arith, same_bp.1, some_units),
              Chain-same base h k bp cs same_bp same c,
            ),
            omega (arith, units),
            λ x.
                union_cong (Within-same h k p x units)
                  (Covers-same h k (bp ∷ cs) x (same_bp, same)),
          )
    ]
