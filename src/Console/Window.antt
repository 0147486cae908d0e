-- ===== src/Console/Window.antt =====
-- console.c: the characters in the input buffer between two of its counters.
use os.Base.{
  ℕ, zero, suc, ◌+◌, ◌%◌, ◌^◌, ◌<◌, ◌≡◌, refl, ap, List, [], ◌∷◌, ◌++◌, length, get_or, set,
  get_or-set_ne, arith,
}
use os.Machine.{add32}
use os.Console.{input_buf}

-- The `n` characters from counter `r` on.
abbrev pub window : List ℕ → ℕ → ℕ → List ℕ
window buf r zero = []
window buf r (suc n) = get_or buf (r % input_buf) 0 ∷ window buf (add32 r 1) n

pub length-window : (buf : List ℕ) (r n : ℕ) → length (window buf r n) ≡ n
length-window buf r zero = refl
length-window buf r (suc n) = ap suc (length-window buf (add32 r 1) n)

-- The last character of a window.
pub window-suc :
    (buf : List ℕ) (r n : ℕ)
    → r < 2 ^ 32
    → window buf r (suc n) ≡ window buf r n ++ (get_or buf (add32 r n % input_buf) 0 ∷ [])
window-suc buf r zero lt = let same : add32 r 0 ≡ r = omega arith in rw (same) refl
window-suc buf r (suc n) lt =
    let same : add32 r (suc n) ≡ add32 (add32 r 1) n = omega arith in
    rw (same) (
      ap (λ (l : List ℕ). get_or buf (r % input_buf) 0 ∷ l)
        (window-suc buf (add32 r 1) n (omega arith)))

pub window-add :
    (buf : List ℕ) (r m n : ℕ)
    → r < 2 ^ 32
    → window buf r (m + n) ≡ window buf r m ++ window buf (add32 r m) n
window-add buf r zero n lt =
    let same : add32 r 0 ≡ r = omega arith in
    let none : 0 + n ≡ n = omega arith in rw (same, none) refl
window-add buf r (suc m) n lt =
    let same : add32 r (suc m) ≡ add32 (add32 r 1) m = omega arith in
    let one : suc m + n ≡ suc (m + n) = omega arith in
    rw (one, same)
      (ap (λ (l : List ℕ). get_or buf (r % input_buf) 0 ∷ l)
        (window-add buf (add32 r 1) m n (omega arith)))

-- A character stored at counter `w` changes no window that ends before it.
pub window-set :
    (buf : List ℕ) (b r n w k : ℕ)
    → r < 2 ^ 32
    → w ≡ add32 r (n + k)
    → n + k < input_buf
    → window (set buf (w % input_buf) b) r n ≡ window buf r n
window-set buf b r zero w k lt e small = refl
window-set buf b r (suc n) w k lt e small = λ i.
    get_or-set_ne buf (w % input_buf) (r % input_buf) b 0 (λ same. omega arith) i
    ∷ window-set buf b (add32 r 1) n w k (omega arith) (omega arith) (omega arith) i
