-- ===== src/Umalloc/Place.antt =====
-- umalloc.c: the place that `free` finds for a block, and the list with the block there.
use os.Base.{
  ℕ, suc, ◌+◌, ◌≤◌, ◌<◌, ◌≡◌, ◌≢◌, ◌↔◌, ◌⊎◌, inl, inr, refl, ap, ◌∙◌, true, false, List, [], ◌∷◌,
  length, arith,
}
use os.Base.Result.{ok}
use os.Umalloc.{Heap, end_of, is_place, find_place, join_upper, join_lower}
use os.Umalloc.Chains.{Chain, Within, Covers, SameAt, Above, Above-lt, Chain-Above}
use os.Umalloc.Splice.{upper_same, lower_same, Upper, Upper-last, Upper-next, lower_lem}

abbrev pub Elem : ℕ → List ℕ → Type 0
Elem m [] = ⊥
Elem m (a ∷ bs) = (m ≡ a) ⊎ Elem m bs

pub Elem-Above : (b m : ℕ) (bs : List ℕ) → Above b bs → Elem m bs → b < m
Elem-Above b m [] above e = absurd e
Elem-Above b m (a ∷ bs) above (inl e) = omega (arith, e, above.0)
Elem-Above b m (a ∷ bs) above (inr e) = Elem-Above b m bs above.1 e

-- The heap after the block at `bp` was joined to the list behind `p`.
abbrev pub spliced : Heap → ℕ → ℕ → Heap
spliced h p bp = join_lower (join_upper h p bp) p bp

pub spliced_same : (h : Heap) (p bp a : ℕ) → a ≢ p → a ≢ bp → SameAt h (spliced h p bp) a
spliced_same h p bp a ne ne' =
    let upper : SameAt h (join_upper h p bp) a = upper_same h p bp a ne' in
    let lower : SameAt (join_upper h p bp) (spliced h p bp) a =
      lower_same (join_upper h p bp) p bp a ne in
    (lower.0 ∙ upper.0, lower.1 ∙ upper.1)

-- The block overlaps no block of the list.
abbrev pub Apart : Heap → ℕ → List ℕ → Type 0
Apart h bp [] = Unit {0}
Apart h bp (a ∷ bs) = ((end_of h a ≤ bp) ⊎ (end_of h bp ≤ a)) × Apart h bp bs

module _ (base : ℕ) (h : Heap) (bp : ℕ) (some_units : 0 < h.size bp) (over_base : base < bp) where
  -- The list behind `q` with the block in its place: in order, and covering what it covered and the
  -- block. The place `p` is in the list.
  abbrev pub Spliced : ℕ → ℕ → List ℕ → Type 0
  Spliced p q bs =
      (cs : List ℕ) × Chain base (spliced h p bp) q cs
      × (h.size q ≤ (spliced h p bp).size q)
      × (q ≤ p)
      × Elem p (q ∷ cs)
      × ((x : ℕ) → Covers (spliced h p bp) (q ∷ cs) x ↔ (Within h bp x ⊎ Covers h (q ∷ bs) x))

  -- From every block below the place the search ends there.
  abbrev pub Found : ℕ → ℕ → List ℕ → Type 0
  Found p q bs =
      (m : ℕ)
      → Elem m (q ∷ bs)
      → m < bp
      → (extra : ℕ) → find_place (suc (length bs + extra)) h bp m ≡ ok p

  splice_here :
      (p : ℕ) (bs : List ℕ)
      → p < bp
      → end_of h p ≤ bp
      → Upper base h (join_upper h p bp) bp bs
      → Spliced p p bs
  splice_here p bs less before (cs, c, units, covers) =
      let k : Heap = join_upper h p bp in
      let same : SameAt h k p = upper_same h p bp p (λ e. omega arith) in
      let (ds, d, larger, covers') =
        lower_lem base k p bp cs less (omega (arith, same.1, before)) units c in
      (
        ds,
        d,
        omega (arith, larger, same.1),
        omega arith,
        inl refl,
        λ x. (
          λ w. elim ((covers' x).0 w) [
            | inl here ↦ inr (inl (here.0, omega (arith, here.1, same.1)))
            | inr there ↦ elim ((covers x).0 there) [ inl b ↦ inl b | inr r ↦ inr (inr r) ]
          ],
          λ w. elim w [
            | inl b ↦ (covers' x).1 (inr ((covers x).1 (inl b)))
            | inr y ↦ elim y [
              | inl here ↦ (covers' x).1 (inl (here.0, omega (arith, here.1, same.1)))
              | inr r ↦ (covers' x).1 (inr ((covers x).1 (inr r)))
            ]
          ],
        ),
      )

  Found-here : (q : ℕ) (bs : List ℕ) → is_place h bp q ≡ true → Above bp bs → Found q q bs
  unfolding find_place
  Found-here q bs place above m (inl e) low extra =
      ap (find_place (suc (length bs + extra)) h bp) e ∙ rw (find_place, place) refl
  Found-here q bs place above m (inr later) low extra =
      absurd (omega (arith, low, Elem-Above bp m bs above later))

  -- A block below the place leads to the next.
  Found-next :
      (p q a : ℕ) (bs : List ℕ)
      → h.ptr q ≡ a
      → is_place h bp q ≡ false
      → a < bp
      → Found p a bs
      → Found p q (a ∷ bs)
  unfolding find_place
  Found-next p q a bs link skip low found m (inl e) less extra =
      ap (find_place (suc (suc (length bs) + extra)) h bp) e
      ∙ rw (find_place, skip, link)
          (let rounds : suc (length bs) + extra ≡ suc (length bs + extra) = omega arith in
            ap (λ (n : ℕ). find_place n h bp a) rounds ∙ found a (inl refl) low extra)
  Found-next p q a bs link skip low found m (inr later) less extra =
      let rounds : suc (suc (length bs) + extra) ≡ suc (length bs + (extra + 1)) = omega arith in
      ap (λ (n : ℕ). find_place n h bp m) rounds ∙ found m later less (extra + 1)

  pub place_lem :
      (q : ℕ) (bs : List ℕ)
      → Chain base h q bs
      → base ≤ q
      → q < bp
      → end_of h q ≤ bp
      → Apart h bp bs
      → (p : ℕ) × Found p q bs × Spliced p q bs
  place_lem q [] c from low before apart =
      let last : is_place h bp q ≡ true = rw (c.0) (ground arith) in
      (
        q,
        Found-here q [] last tt,
        splice_here q [] low before (Upper-last base h q bp some_units over_base c),
      )
  place_lem q (a ∷ bs) c from low before (inr upper, apart) =
      let over : bp < a = omega arith in
      let between : is_place h bp q ≡ true = rw (c.0) (ground arith) in
      let above : Above bp bs = Above-lt bp a bs over (Chain-Above base h a bs c.4) in
      (
        q,
        Found-here q (a ∷ bs) between (over, above),
        splice_here q (a ∷ bs) low before
            (Upper-next base h q bp some_units over_base a bs upper c),
      )
  place_lem q (a ∷ bs) c from low before (inl lower, apart) =
      let below : a < bp = omega (arith, c.3) in
      let skip : is_place h bp q ≡ false = rw (c.0) (ground (arith, c.1)) in
      let (p, found, (cs, d, larger, reached, there, covers)) =
        place_lem a bs c.4 (omega (arith, c.1)) below lower apart in
      let same : SameAt h (spliced h p bp) q =
        spliced_same h p bp q (λ e. omega (arith, c.1, reached)) (λ e. omega arith) in
      (
        p,
        Found-next p q a bs c.0 skip below found,
        (
          a ∷ cs,
          (same.0 ∙ c.0, c.1, omega (arith, same.1, c.2), omega (arith, larger, c.3), d),
          omega (arith, same.1),
          omega (arith, reached, c.1),
          inr there,
          λ x. (
            λ w. elim w [
              | inl here ↦ inr (inl (here.0, omega (arith, here.1, same.1)))
              | inr later ↦ elim ((covers x).0 later) [ inl b ↦ inl b | inr r ↦ inr (inr r) ]
            ],
            λ w. elim w [
              | inl b ↦ inr ((covers x).1 (inl b))
              | inr y ↦ elim y [
                | inl here ↦ inl (here.0, omega (arith, here.1, same.1))
                | inr r ↦ inr ((covers x).1 (inr r))
              ]
            ],
          ),
        ),
      )
