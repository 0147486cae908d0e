-- ===== src/Pipe/Ring.antt =====
-- The bytes that a pipe holds, oldest first, and the invariant of its counters.
use os.Base.{
  ℕ, zero, suc, ◌%◌, ◌^◌, ◌≤◌, ◌<◌, ◌≡◌, ◌≢◌, ◌↔◌, refl, ap, ◌∙◌, true, false, List, [], ◌∷◌, ◌++◌,
  length, get_or, set, length-set, get_or-set_self, get_or-set_ne, arith,
}
use os.Machine.{add32, sub32}
use os.Pipe.{Pipe, pipesize, put, is_full, is_empty}

-- The pipe holds `nwrite - nread` bytes, at most `PIPESIZE`.
pub record IsValid (p : Pipe) : Type 0 where
  pub room : length p.bytes ≡ pipesize
  pub read_word : p.nread < 2 ^ 32
  pub write_word : p.nwrite < 2 ^ 32
  pub fits : sub32 p.nwrite p.nread ≤ pipesize

-- The `n` bytes from counter `r` on.
abbrev pub window : List ℕ → ℕ → ℕ → List ℕ
window bytes r zero = []
window bytes r (suc n) = get_or bytes (r % pipesize) 0 ∷ window bytes (add32 r 1) n

abbrev pub contents : Pipe → List ℕ
contents p = window p.bytes p.nread (sub32 p.nwrite p.nread)

length-window : (bytes : List ℕ) (r n : ℕ) → length (window bytes r n) ≡ n
length-window bytes r zero = refl
length-window bytes r (suc n) = ap suc (length-window bytes (add32 r 1) n)

pub length-contents : (p : Pipe) → length (contents p) ≡ sub32 p.nwrite p.nread
length-contents p = length-window p.bytes p.nread (sub32 p.nwrite p.nread)

-- Writing just past a window extends it by that byte: 2 ^ 32 is a multiple of `PIPESIZE`, so the
-- places do not jump where the counter wraps.
window-set :
    (bytes : List ℕ) (b r n w : ℕ)
    → length bytes ≡ pipesize
    → r < 2 ^ 32
    → n < pipesize
    → w ≡ add32 r n
    → window (set bytes (w % pipesize) b) r (suc n) ≡ window bytes r n ++ (b ∷ [])
window-set bytes b r zero w len lt small e =
    ap (λ (x : ℕ). x ∷ [])
      (let same : w % pipesize ≡ r % pipesize = omega arith in
        rw same (get_or-set_self bytes (r % pipesize) b 0 (omega arith)))
window-set bytes b r (suc n) w len lt small e = λ i.
    get_or-set_ne bytes (w % pipesize) (r % pipesize) b 0 (λ same. omega arith) i
    ∷ window-set bytes b (add32 r 1) n w len (omega arith) (omega arith) (omega arith) i

pub put-IsValid : (p : Pipe) (b : ℕ) → IsValid p → is_full p ≡ false → IsValid (put p b)
unfolding put
put-IsValid p b v free =
    let ne : p.nwrite ≢ add32 p.nread pipesize = ground arith in
    record {
      room = length-set p.bytes (p.nwrite % pipesize) b ∙ v.room;
      read_word = v.read_word;
      write_word = omega arith;
      fits = omega arith;
    }

-- A byte put in goes to the end.
pub contents-put :
    (p : Pipe) (b : ℕ) → IsValid p → is_full p ≡ false → contents (put p b) ≡ contents p ++ (b ∷ [])
unfolding put
contents-put p b v free =
    let ne : p.nwrite ≢ add32 p.nread pipesize = ground arith in
    let one_more : sub32 (add32 p.nwrite 1) p.nread ≡ suc (sub32 p.nwrite p.nread) = omega arith in
    rw one_more (
      window-set p.bytes b p.nread (sub32 p.nwrite p.nread) p.nwrite v.room v.read_word
        (omega arith) (omega arith))

-- The pipe is full, as `pipewrite` tests it, exactly if it holds 512 bytes.
pub is_full_iff : (p : Pipe) → IsValid p → (is_full p ≡ true) ↔ (length (contents p) ≡ pipesize)
is_full_iff p v = (
  (λ h.
      let e : p.nwrite ≡ add32 p.nread pipesize = ground arith in omega (arith, length-contents p)),
  λ h. let e : p.nwrite ≡ add32 p.nread pipesize = omega (arith, length-contents p) in ground arith,
)

-- The pipe with the oldest byte taken out.
abbrev pub advanced : Pipe → Pipe
advanced p = record p { nread = add32 p.nread 1 }

pub advanced-IsValid : (p : Pipe) → IsValid p → is_empty p ≡ false → IsValid (advanced p)
advanced-IsValid p v some_left =
    let ne : p.nread ≢ p.nwrite = ground arith in
    record { room = v.room; read_word = omega arith; write_word = v.write_word; fits = omega arith }

-- The oldest byte is the one at `nread`.
pub contents-advanced :
    (p : Pipe)
    → IsValid p
    → is_empty p ≡ false
    → contents p ≡ get_or p.bytes (p.nread % pipesize) 0 ∷ contents (advanced p)
contents-advanced p v some_left =
    let ne : p.nread ≢ p.nwrite = ground arith in
    let one_less : sub32 p.nwrite p.nread ≡ suc (sub32 p.nwrite (add32 p.nread 1)) = omega arith in
    rw one_less refl

pub contents_empty : (p : Pipe) → IsValid p → is_empty p ≡ true → contents p ≡ []
contents_empty p v none_left =
    let e : p.nread ≡ p.nwrite = ground arith in
    let zero_left : sub32 p.nwrite p.nread ≡ 0 = omega arith in rw zero_left refl
