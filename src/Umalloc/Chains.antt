-- ===== src/Umalloc/Chains.antt =====
-- umalloc.c: the list of free blocks in the order of their addresses.
use os.Base.{ℕ, ◌+◌, ◌*◌, ◌≤◌, ◌<◌, ◌≡◌, ◌↔◌, ◌⊎◌, inl, inr, ap, ◌∙◌, List, [], ◌∷◌, arith}
use os.Umalloc.{header, Heap, end_of}

module _ (base : ℕ) where
  -- Behind the block `p` come those at the addresses of the list, in ascending order and with a gap
  -- before each, and then `base`.
  abbrev pub Chain : Heap → ℕ → List ℕ → Type 0
  Chain h p [] = (h.ptr p ≡ base) × Unit {0}
  Chain h p (a ∷ bs) = (h.ptr p ≡ a) × (p < a) × (end_of h p < a) × (0 < h.size a) × Chain h a bs

-- The byte lies in the block at `a`, and in one of the blocks.
abbrev pub Within : Heap → ℕ → ℕ → Type 0
Within h a x = (a ≤ x) × (x < end_of h a)

abbrev pub Covers : Heap → List ℕ → ℕ → Type 0
Covers h [] x = ⊥
Covers h (a ∷ bs) x = Within h a x ⊎ Covers h bs x

-- The two heaps have the same header at `a`.
abbrev pub SameAt : Heap → Heap → ℕ → Type 0
SameAt h k a = (k.ptr a ≡ h.ptr a) × (k.size a ≡ h.size a)

abbrev pub AllSame : Heap → Heap → List ℕ → Type 0
AllSame h k [] = Unit {0}
AllSame h k (a ∷ bs) = SameAt h k a × AllSame h k bs

pub Chain-same :
    (base : ℕ) (h k : Heap) (p : ℕ) (bs : List ℕ)
    → SameAt h k p
    → AllSame h k bs
    → Chain base h p bs
    → Chain base k p bs
Chain-same base h k p [] here same c = (here.0 ∙ c.0, tt)
Chain-same base h k p (a ∷ bs) here same c = (
  here.0 ∙ c.0,
  c.1,
  omega (arith, here.1, c.2, ap (λ (n : ℕ). header * n) here.1),
  omega (arith, same.0.1, c.3),
  Chain-same base h k a bs same.0 same.1 c.4,
)

pub Covers-same :
    (h k : Heap) (bs : List ℕ) (x : ℕ) → AllSame h k bs → Covers k bs x ↔ Covers h bs x
Covers-same h k [] x same = (λ c. c, λ c. c)
Covers-same h k (a ∷ bs) x same =
    let e : end_of k a ≡ end_of h a = ap (λ (n : ℕ). a + header * n) same.0.1 in
    let (there, back) = Covers-same h k bs x same.1 in
    (
      λ c. elim c [ inl w ↦ inl (w.0, omega (arith, w.1, e)) | inr r ↦ inr (there r) ],
      λ c. elim c [ inl w ↦ inl (w.0, omega (arith, w.1, e)) | inr r ↦ inr (back r) ],
    )

-- No address of the list is `p`, and all are above it.
abbrev pub Above : ℕ → List ℕ → Type 0
Above p [] = Unit {0}
Above p (a ∷ bs) = (p < a) × Above p bs

pub Above-lt : (p q : ℕ) (bs : List ℕ) → p < q → Above q bs → Above p bs
Above-lt p q [] less above = tt
Above-lt p q (a ∷ bs) less above = (omega (arith, above.0), Above-lt p q bs less above.1)

pub Chain-Above : (base : ℕ) (h : Heap) (p : ℕ) (bs : List ℕ) → Chain base h p bs → Above p bs
Chain-Above base h p [] c = tt
Chain-Above base h p (a ∷ bs) c = (c.1, Above-lt p a bs c.1 (Chain-Above base h a bs c.4))

-- Heaps that differ only at `p` and below have the same headers above it.
pub AllSame-Above :
    (h k : Heap) (p : ℕ) (bs : List ℕ)
    → ((a : ℕ) → p < a → SameAt h k a)
    → Above p bs
    → AllSame h k bs
AllSame-Above h k p [] same above = tt
AllSame-Above h k p (a ∷ bs) same above = (same a above.0, AllSame-Above h k p bs same above.1)

-- The list behind a header that takes the place of that of `a`.
pub Chain-from :
    (base : ℕ) (h k : Heap) (a q : ℕ) (bs : List ℕ)
    → k.ptr q ≡ h.ptr a
    → q ≤ a
    → end_of k q ≤ end_of h a
    → AllSame h k bs
    → Chain base h a bs
    → Chain base k q bs
Chain-from base h k a q [] link low end same c = (link ∙ c.0, tt)
Chain-from base h k a q (b ∷ bs) link low end same c = (
  link ∙ c.0,
  omega (arith, c.1),
  omega (arith, c.2),
  omega (arith, same.0.1, c.3),
  Chain-same base h k b bs same.0 same.1 c.4,
)

-- All blocks of a list are above the end of the block before it, and so is what they cover.
pub Chain-ends :
    (base : ℕ) (h : Heap) (p : ℕ) (bs : List ℕ) → Chain base h p bs → Above (end_of h p) bs
Chain-ends base h p [] c = tt
Chain-ends base h p (a ∷ bs) c =
    (c.2, Above-lt (end_of h p) (end_of h a) bs (omega (arith, c.2)) (Chain-ends base h a bs c.4))

pub Covers-above :
    (base : ℕ) (h : Heap) (p : ℕ) (bs : List ℕ) (x : ℕ)
    → Chain base h p bs
    → Covers h bs x
    → end_of h p < x
Covers-above base h p [] x c w = absurd w
Covers-above base h p (a ∷ bs) x c (inl here) = omega (arith, c.2, here.0)
Covers-above base h p (a ∷ bs) x c (inr later) =
    omega (arith, c.2, Covers-above base h a bs x c.4 later)
