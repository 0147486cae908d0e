-- ===== src/Umalloc/Free.antt =====
-- umalloc.c: `free` keeps the list of free blocks in order and adds exactly the block.
use os.Base.{
  ℕ, suc, ◌+◌, ◌-◌, ◌*◌, ◌≤◌, ◌<◌, ◌≡◌, ◌≢◌, ◌↔◌, ◌⊎◌, inl, inr, refl, ap, ◌∙◌, false, List, [],
  ◌∷◌, ◌==◌, ltb, length, Bool-cases, arith,
}
use os.Base.Result.{Result, ok, ◌>>=◌}
use os.Umalloc.{header, Heap, end_of, is_place, find_place, join_upper, free}
use os.Umalloc.Chains.{Chain, Within, Covers, SameAt, AllSame, Chain-same, Covers-same}
use os.Umalloc.Splice.{upper_same, lower_same, lower_gap}
use os.Umalloc.Place.{Elem, Apart, Found, Spliced, spliced, place_lem}

-- The free blocks behind `base` are those of the list, in the order of their addresses, with gaps
-- between them; the static header has no units, and `freep` is in the list.
pub record IsList (base : ℕ) (h : Heap) (bs : List ℕ) : Type 0 where
  pub chain : Chain base h base bs
  pub empty_base : h.size base ≡ 0
  pub start : Elem h.freep (base ∷ bs)

freep_only : (h : Heap) (p : ℕ) (bs : List ℕ) → AllSame h (record h { freep = p }) bs
freep_only h p [] = tt
freep_only h p (a ∷ bs) = ((refl, refl), freep_only h p bs)

module _ (base : ℕ) (h : Heap) (bp : ℕ) (some_units : 0 < h.size bp) (over_base : base < bp) where
  step_on :
      (m next fuel : ℕ)
      → h.ptr m ≡ next
      → bp < m
      → (m < next) ⊎ (next ≡ base)
      → find_place (suc fuel) h bp m ≡ find_place fuel h bp next
  unfolding find_place
  step_on m next fuel link above up =
      let skip : is_place h bp m ≡ false =
        rw (link) (elim up [ inl more ↦ ground arith | inr end ↦ ground arith ]) in
      rw (find_place, skip, link) refl

  -- From a block above the place the search comes round to the static header.
  wraps :
      (q : ℕ) (bs : List ℕ)
      → Chain base h q bs
      → base ≤ q
      → (m : ℕ) → Elem m (q ∷ bs)
      → bp < m
      → (k : ℕ) × (k ≤ length bs)
        × ((fuel : ℕ) → find_place (suc (k + fuel)) h bp m ≡ find_place fuel h bp base)
  wraps q [] c from m (inr e) above = absurd e
  wraps q [] c from m (inl e) above = (
    0,
    omega arith,
    λ fuel.
        let none_more : suc (0 + fuel) ≡ suc fuel = omega arith in
        ap (λ (n : ℕ). find_place n h bp m) none_more
        ∙ step_on m base fuel (ap h.ptr e ∙ c.0) above (inr refl),
  )
  wraps q (a ∷ bs) c from m (inl e) above =
      let (k, short, comes) =
        wraps a bs c.4 (omega (arith, c.1)) a (inl refl) (omega (arith, e, c.1)) in
      (
        suc k,
        omega (arith, short),
        λ fuel.
            let one_more : suc k + fuel ≡ suc (k + fuel) = omega arith in
            step_on m a (suc k + fuel) (ap h.ptr e ∙ c.0) above (inl (omega (arith, e, c.1)))
            ∙ ap (λ (n : ℕ). find_place n h bp a) one_more
            ∙ comes fuel,
      )
  wraps q (a ∷ bs) c from m (inr later) above =
      let (k, short, comes) = wraps a bs c.4 (omega (arith, c.1)) m later above in
      (k, omega (arith, short), comes)

  -- The static header keeps its size, so no block is joined to it.
  base_stays : (p : ℕ) → h.size base ≡ 0 → (spliced h p bp).size base ≡ 0
  base_stays p none_there =
      let upper : SameAt h (join_upper h p bp) base = upper_same h p bp base (λ e. omega arith) in
      elim (Bool-cases (p == base)) [
        | inr other ↦
            (lower_same (join_upper h p bp) p bp base (λ e. ground (arith, other))).1
            ∙ upper.1
            ∙ none_there
        | inl at_base ↦
            let e : p ≡ base = ground (arith, at_base) in
            let gap : (end_of (join_upper h base bp) base == bp) ≡ false =
              let ends : end_of (join_upper h base bp) base ≡ base =
                let kept : SameAt h (join_upper h base bp) base =
                  upper_same h base bp base (λ e'. omega arith) in
                omega (arith, kept.1, none_there) in
              ground (arith, ends) in
            ap (λ (q : ℕ). (spliced h q bp).size base) e
            ∙ (lower_gap (join_upper h base bp) base bp gap).1
            ∙ (upper_same h base bp base (λ e'. omega arith)).1
            ∙ none_there
      ]

  -- No block of the list is at `bp`.
  elsewhere : (m : ℕ) (bs : List ℕ) (q : ℕ) → Chain base h q bs → Apart h bp bs → Elem m bs → m ≢ bp
  elsewhere m [] q c apart e = absurd e
  elsewhere m (a ∷ bs) q c (inl lower, apart) (inl e) = λ same. omega (arith, e, c.3)
  elsewhere m (a ∷ bs) q c (inr upper, apart) (inl e) = λ same. omega (arith, e)
  elsewhere m (a ∷ bs) q c (side, apart) (inr e) = elsewhere m bs a c.4 apart e

  finds :
      (p : ℕ) (bs : List ℕ) (fuel : ℕ)
      → IsList base h bs
      → Apart h bp bs
      → Found base h bp some_units over_base p base bs
      → 2 * length bs + 2 ≤ fuel
      → find_place fuel h bp h.freep ≡ ok p
  finds p bs fuel v apart found enough = elim (Bool-cases (ltb h.freep bp)) [
    | inl low ↦
        let extra : ℕ = fuel - suc (length bs) in
        let rounds : fuel ≡ suc (length bs + extra) = omega arith in
        ap (λ (n : ℕ). find_place n h bp h.freep) rounds
        ∙ found h.freep v.start (ground (arith, low)) extra
    | inr high ↦
        let apart_start : h.freep ≢ bp = elim v.start [
          | inl e ↦ λ same. omega (arith, e)
          | inr e ↦ elsewhere h.freep bs base v.chain apart e
        ] in
        let above : bp < h.freep = ground (arith, high, apart_start) in
        let (k, short, comes) = wraps base bs v.chain (omega arith) h.freep v.start above in
        let extra : ℕ = fuel - suc (suc (k + length bs)) in
        let rounds : fuel ≡ suc (k + suc (length bs + extra)) = omega arith in
        ap (λ (n : ℕ). find_place n h bp h.freep) rounds
        ∙ comes (suc (length bs + extra))
        ∙ found base (inl refl) over_base extra
  ]

  -- The result of `free` at the place `p`.
  abbrev Freed : ℕ → List ℕ → Type 0
  Freed fuel bs =
      (k : Heap) × (cs : List ℕ) × (free fuel (bp + header) h ≡ ok k)
      × IsList base k cs
      × ((x : ℕ) → Covers k cs x ↔ (Within h bp x ⊎ Covers h bs x))

  free_at :
      (p : ℕ) (bs : List ℕ) (fuel : ℕ)
      → IsList base h bs
      → Spliced base h bp some_units over_base p base bs
      → find_place fuel h bp h.freep ≡ ok p
      → Freed fuel bs
  unfolding free
  free_at p bs fuel v (cs, chain, larger, reached, there, covers) found =
      let m : Heap = spliced h p bp in
      let k : Heap = record m { freep = p } in
      let stays : m.size base ≡ 0 = base_stays p v.empty_base in
      let back : bp + header - header ≡ bp = omega arith in
      let ran : free fuel (bp + header) h ≡ ok k =
        ap
          (λ (q : ℕ). do r ← find_place fuel h q h.freep; ok (record (spliced h r q) { freep = r }))
          back
        ∙ ap (λ (o : Result ℕ). do r ← o; ok (record (spliced h r bp) { freep = r })) found in
      let in_order : Chain base k base cs =
        Chain-same base m k base cs (refl, refl) (freep_only m p cs) chain in
      let moved : (x : ℕ) → Covers k cs x ↔ Covers m cs x =
        λ x. Covers-same m k cs x (freep_only m p cs) in
      (
        k,
        cs,
        ran,
        record { chain = in_order; empty_base = stays; start = there },
        λ x. (
          λ w. elim ((covers x).0 (inr ((moved x).0 w))) [
            | inl b ↦ inl b
            | inr y ↦ elim y [
              | inl here ↦ absurd (omega (arith, here.0, here.1, v.empty_base))
              | inr r ↦ inr r
            ]
          ],
          λ w.
              let old : Within h bp x ⊎ Covers h (base ∷ bs) x = elim w [
                | inl b ↦ inl b
                | inr r ↦ inr (inr r)
              ] in
              elim ((covers x).1 old) [
                | inl here ↦ absurd (omega (arith, here.0, here.1, stays))
                | inr r ↦ (moved x).1 r
              ],
        ),
      )

  -- Freeing a block that overlaps no free block succeeds, given two rounds for each free block and two
  -- more: the list is in order, without neighbours that touch, and the free bytes are the ones from
  -- before and those of the block.
  pub free_lem :
      (bs : List ℕ) (fuel : ℕ)
      → IsList base h bs
      → Apart h bp bs
      → 2 * length bs + 2 ≤ fuel
      → (k : Heap) × (cs : List ℕ) × (free fuel (bp + header) h ≡ ok k)
        × IsList base k cs
        × ((x : ℕ) → Covers k cs x ↔ (Within h bp x ⊎ Covers h bs x))
  unfolding free
  free_lem bs fuel v apart enough =
      let (p, found, s) =
        place_lem base h bp some_units over_base base bs v.chain (omega arith) over_base
          (omega (arith, v.empty_base)) apart in
      free_at p bs fuel v s (finds p bs fuel v apart found enough)
