-- ===== src/Machine/Memory.antt =====
-- What a load sees after a store of words or bytes.
use os.Base.{
  ℕ, zero, suc, ◌+◌, ◌*◌, ◌≤◌, ◌<◌, ◌^◌, ◌≡◌, refl, ap, ◌∙◌, ◌⊎◌, inl, List, [], ◌∷◌, length,
  get_or, arith,
}
use os.Machine.{Mem, store8, store32, load32, store_bytes, store_words}

-- Every entry is a 32-bit word.
abbrev pub AreWords : List ℕ → Type 0
AreWords [] = Unit {0}
AreWords (w ∷ ws) = (w < 2 ^ 32) × AreWords ws

pub load32-store32_self : (m : Mem) (a w : ℕ) → w < 2 ^ 32 → load32 (store32 m a w) a ≡ w
unfolding load32 store32
load32-store32_self m a w h = ground arith

store32-outside : (m : Mem) (a w x : ℕ) → (x < a) ⊎ (a + 4 ≤ x) → store32 m a w x ≡ m x
unfolding store32
store32-outside m a w x h = ground arith

store_words-outside :
    (m : Mem) (a : ℕ) (ws : List ℕ) (x : ℕ)
    → (x < a) ⊎ (a + 4 * length ws ≤ x)
    → store_words m a ws x ≡ m x
unfolding store_words
store_words-outside m a [] x h = refl
store_words-outside m a (w ∷ ws) x h =
    store_words-outside (store32 m a w) (a + 4) ws x (omega arith)
    ∙ store32-outside m a w x (omega arith)

pub store_bytes-outside :
    (m : Mem) (a : ℕ) (bs : List ℕ) (x : ℕ)
    → (x < a) ⊎ (a + length bs ≤ x)
    → store_bytes m a bs x ≡ m x
unfolding store_bytes
store_bytes-outside m a [] x h = refl
store_bytes-outside m a (b ∷ bs) x h =
    ground (arith, store_bytes-outside (store8 m a b) (a + 1) bs x)

-- A load reads four bytes.
pub load32-congr :
    (m n : Mem) (a : ℕ) → ((x : ℕ) → a ≤ x → x < a + 4 → m x ≡ n x) → load32 m a ≡ load32 n a
unfolding load32
load32-congr m n a h = omega (
  arith,
  h a (omega arith) (omega arith),
  h (a + 1) (omega arith) (omega arith),
  h (a + 2) (omega arith) (omega arith),
  h (a + 3) (omega arith) (omega arith),
)

pub load32-store_words :
    (m : Mem) (a : ℕ) (ws : List ℕ) (i : ℕ)
    → AreWords ws
    → i < length ws
    → load32 (store_words m a ws) (a + 4 * i) ≡ get_or ws i 0
unfolding store_words
load32-store_words m a [] i v h = elim h [ ]
load32-store_words m a (w ∷ ws) zero v h =
    ap (load32 (store_words m a (w ∷ ws))) (omega arith)
    ∙ load32-congr (store_words (store32 m a w) (a + 4) ws) (store32 m a w) a
        (λ x p q. store_words-outside (store32 m a w) (a + 4) ws x (inl q))
    ∙ load32-store32_self m a w v.0
load32-store_words m a (w ∷ ws) (suc i) v h =
    ap (load32 (store_words m a (w ∷ ws))) (omega arith)
    ∙ load32-store_words (store32 m a w) (a + 4) ws i v.1 (omega arith)

pub store32-apart : (m : Mem) (a w x : ℕ) → (x < a) ⊎ (a + 4 ≤ x) → store32 m a w x ≡ m x
store32-apart m a w x h = store32-outside m a w x h

-- The bytes stored are there.
pub store_bytes-inside :
    (m : Mem) (a : ℕ) (bs : List ℕ) (k : ℕ)
    → k < length bs
    → store_bytes m a bs (a + k) ≡ get_or bs k 0
unfolding store_bytes
store_bytes-inside m a [] k h = elim h [ ]
store_bytes-inside m a (b ∷ bs) zero h =
    store_bytes-outside (store8 m a b) (a + 1) bs (a + 0) (omega arith) ∙ ground arith
store_bytes-inside m a (b ∷ bs) (suc k) h =
    ap (store_bytes (store8 m a b) (a + 1) bs) (omega arith)
    ∙ store_bytes-inside (store8 m a b) (a + 1) bs k (omega arith)
