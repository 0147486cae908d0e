-- ===== src/Umalloc/Take.antt =====
-- umalloc.c: `malloc` takes a block's units out of the list, and no others.
use os.Base.{
  ℕ, ◌+◌, ◌-◌, ◌*◌, ◌≤◌, ◌<◌, ◌≡◌, ◌≢◌, ◌↔◌, ◌⊎◌, inl, inr, refl, sym, ap, ◌∙◌, List, [], ◌∷◌, ◌==◌,
  Bool-cases, arith,
}
use mathlib.Core.Path.{subst}
use os.Umalloc.{header, Heap, update, end_of, carve}
use os.Umalloc.Chains.{
  Chain, Within, Covers, SameAt, AllSame, Chain-from, Covers-same, Chain-Above, Chain-ends,
  Covers-above, AllSame-Above,
}
use os.Umalloc.Splice.{update_self, update_ne, Within-same, Within-join, union_cong}

-- In the list behind `q` the block `p` comes next after `prevp`.
abbrev pub Next : ℕ → ℕ → ℕ → List ℕ → Type 0
Next prevp p q [] = ⊥
Next prevp p q (a ∷ bs) = ((prevp ≡ q) × (p ≡ a)) ⊎ Next prevp p a bs

module _ (base nunits : ℕ) (h : Heap) (asked : 0 < nunits) where
  -- The list behind `q` without the units of the block at `b`.
  abbrev pub Taken : ℕ → Heap → ℕ → List ℕ → Type 0
  Taken b k q bs =
      (cs : List ℕ) × Chain base k q cs
      × (k.size b ≡ nunits)
      × ((z : ℕ) → z < q → SameAt h k z)
      × (k.size q ≡ h.size q)
      × ((x : ℕ) → Covers h bs x ↔ (Within k b x ⊎ Covers k cs x))
      × ((x : ℕ) → Within k b x → Covers k cs x → ⊥)

  unlinked : ℕ → ℕ → Heap
  unlinked q a = record h { ptr = update h.ptr q (h.ptr a); freep = q }

  take_whole :
      (q a : ℕ) (bs : List ℕ)
      → h.size a ≡ nunits
      → Chain base h q (a ∷ bs)
      → Taken a (unlinked q a) q (a ∷ bs)
  unfolding unlinked
  take_whole q a bs exact c =
      let k : Heap = unlinked q a in
      let same : AllSame h k bs =
        AllSame-Above h k a bs
          (λ b above. (update_ne h.ptr q (h.ptr a) b (λ e. omega (arith, c.1)), refl))
          (Chain-Above base h a bs c.4) in
      (
        bs,
        Chain-from base h k a q bs (update_self h.ptr q (h.ptr a)) (omega (arith, c.1))
            (omega (arith, c.2)) same c.4,
        exact,
        λ z below. (update_ne h.ptr q (h.ptr a) z (λ e. omega arith), refl),
        refl,
        λ x.
            let (there, back) = Covers-same h k bs x same in
            union_cong ((λ w. w), (λ w. w)) (back, there),
        λ x here later. absurd (
            omega (
              arith,
              here.1,
              Covers-above base h a bs x c.4 ((Covers-same h k bs x same).0 later),
            )),
      )

  shrunk : ℕ → ℕ → Heap
  shrunk q a = record h {
    size = update (update h.size a (h.size a - nunits)) (a + header * (h.size a - nunits)) nunits;
    freep = q;
  }

  take_end :
      (q a : ℕ) (bs : List ℕ)
      → nunits < h.size a
      → Chain base h q (a ∷ bs)
      → Taken (a + header * (h.size a - nunits)) (shrunk q a) q (a ∷ bs)
  unfolding shrunk
  take_end q a bs larger c =
      let k : Heap = shrunk q a in
      let m : ℕ = h.size a - nunits in
      let b : ℕ = a + header * m in
      let other : (z : ℕ) → z ≢ a → z ≢ b → SameAt h k z = λ z ne ne'.
        (refl, update_ne (update h.size a m) b nunits z ne' ∙ update_ne h.size a m z ne) in
      let units : k.size b ≡ nunits = update_self (update h.size a m) b nunits in
      let left : k.size a ≡ m =
        update_ne (update h.size a m) b nunits a (λ e. omega arith) ∙ update_self h.size a m in
      let same_q : SameAt h k q = other q (λ e. omega (arith, c.1)) (λ e. omega (arith, c.1)) in
      let same : AllSame h k bs =
        AllSame-Above h k (end_of h a) bs (λ z above. other z (λ e. omega arith) (λ e. omega arith))
          (Chain-ends base h a bs c.4) in
      let meets : end_of k a ≡ b = ap (λ (n : ℕ). a + header * n) left in
      let whole : end_of h a ≡ end_of k b = omega (arith, units) in
      (
        a ∷ bs,
        (
          c.0,
          c.1,
          omega (arith, same_q.1, c.2),
          omega (arith, left),
          Chain-from base h k a a bs refl (omega arith) (omega (arith, meets)) same c.4,
        ),
        units,
        λ z below. other z (λ e. omega (arith, c.1)) (λ e. omega (arith, c.1)),
        same_q.1,
        λ x.
            let (parts, join) = Within-join k h a b x meets whole in
            let (there, back) = Covers-same h k bs x same in
            (
              λ w. elim w [
                | inl here ↦ elim (parts here) [ inl low ↦ inr (inl low) | inr high ↦ inl high ]
                | inr later ↦ inr (inr (back later))
              ],
              λ w. elim w [
                | inl high ↦ inl (join (inr high))
                | inr y ↦ elim y [ inl low ↦ inl (join (inl low)) | inr later ↦ inr (there later) ]
              ],
            ),
        λ x here later. elim later [
          | inl low ↦ absurd (omega (arith, here.0, low.1, meets))
          | inr others ↦ absurd (
              omega (
                arith,
                here.1,
                whole,
                Covers-above base h a bs x c.4 ((Covers-same h k bs x same).0 others),
              ))
        ],
      )

  carve_here :
      (q a : ℕ) (bs : List ℕ)
      → Chain base h q (a ∷ bs)
      → nunits ≤ h.size a
      → Taken (carve nunits q a h).0 (carve nunits q a h).1 q (a ∷ bs)
  unfolding carve unlinked shrunk
  carve_here q a bs c fits = elim (Bool-cases (h.size a == nunits)) [
    | inl exact ↦
        let e : (a, unlinked q a) ≡ carve nunits q a h = rw (carve, exact) refl in
        subst (λ (r : ℕ × Heap). Taken r.0 r.1 q (a ∷ bs)) e
          (take_whole q a bs (ground (arith, exact)) c)
    | inr larger ↦
        let e : (a + header * (h.size a - nunits), shrunk q a) ≡ carve nunits q a h =
          rw (carve, larger) refl in
        subst (λ (r : ℕ × Heap). Taken r.0 r.1 q (a ∷ bs)) e
          (take_end q a bs (ground (arith, larger, fits)) c)
  ]

  -- What was taken behind `a` was taken behind the block before it.
  take_later :
      (b q a : ℕ) (k : Heap) (bs : List ℕ)
      → Chain base h q (a ∷ bs)
      → Taken b k a bs
      → Taken b k q (a ∷ bs)
  take_later b q a k bs c (cs, d, units, below, size_a, covers, apart) =
      let same_q : SameAt h k q = below q c.1 in
      (
        a ∷ cs,
        (same_q.0 ∙ c.0, c.1, omega (arith, same_q.1, c.2), omega (arith, size_a, c.3), d),
        units,
        λ z low. below z (omega (arith, c.1)),
        same_q.1,
        λ x.
            let (there, back) = Within-same h k a x size_a in
            (
              λ w. elim w [
                | inl here ↦ inr (inl (back here))
                | inr later ↦ elim ((covers x).0 later) [
                  | inl block ↦ inl block
                  | inr r ↦ inr (inr r)
                ]
              ],
              λ w. elim w [
                | inl block ↦ inr ((covers x).1 (inl block))
                | inr y ↦ elim y [
                  | inl here ↦ inl (there here)
                  | inr r ↦ inr ((covers x).1 (inr r))
                ]
              ],
            ),
        λ x block other. elim other [
          | inl here ↦ absurd (
              omega
                (arith, here.1, size_a, Covers-above base h a bs x c.4 ((covers x).1 (inl block))))
          | inr r ↦ apart x block r
        ],
      )

  -- The block that `malloc` takes from a large enough block of the list has the units that were asked
  -- for; the list stays in order, its blocks and the block that was taken do not overlap, and together
  -- they cover what the list covered.
  pub carve_lem :
      (prevp p q : ℕ) (bs : List ℕ)
      → Chain base h q bs
      → Next prevp p q bs
      → nunits ≤ h.size p
      → Taken (carve nunits prevp p h).0 (carve nunits prevp p h).1 q bs
  carve_lem prevp p q [] c next fits = absurd next
  carve_lem prevp p q (a ∷ bs) c (inl (e, e')) fits =
      subst (λ (r : ℕ × Heap). Taken r.0 r.1 q (a ∷ bs)) (λ i. carve nunits (sym e i) (sym e' i) h)
        (carve_here q a bs c (omega (arith, fits, ap h.size e')))
  carve_lem prevp p q (a ∷ bs) c (inr later) fits =
      take_later (carve nunits prevp p h).0 q a (carve nunits prevp p h).1 bs c
        (carve_lem prevp p a bs c.4 later fits)
