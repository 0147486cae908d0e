-- ===== src/Sh/Tokens.antt =====
-- sh.c: how much of the input a token takes.
use os.Base.{ℕ, ◌≤◌, ◌<◌, ◌≡◌, true, false, List, [], ◌∷◌, ◌==◌, length, arith}
use os.Sh.{skip_space, split_word, output_token, token_at, gettoken, starts_with, peek}

pub length-skip_space : (s : List ℕ) → length (skip_space s) ≤ length s
unfolding skip_space
length-skip_space [] = omega arith
length-skip_space (c ∷ s) = ground (arith, length-skip_space s)

length-split_word : (s : List ℕ) → length (split_word s).1 ≤ length s
unfolding split_word
length-split_word [] = omega arith
length-split_word (c ∷ s) = ground (arith, length-split_word s)

length-output_token : (s : List ℕ) → length (output_token s).rest ≤ length s
length-output_token [] = omega arith
length-output_token (c ∷ s) = ground (arith, length-skip_space s, length-skip_space (c ∷ s))

-- A token takes at least one byte.
length-token_at : (c : ℕ) (s : List ℕ) → length (token_at (c ∷ s)).rest ≤ length s
unfolding token_at skip_space split_word
length-token_at c s = ground (
  arith,
  length-output_token s,
  length-skip_space s,
  length-split_word s,
  length-skip_space (split_word s).1,
)

pub length-gettoken : (s : List ℕ) → length (gettoken s).rest ≤ length s
unfolding gettoken
length-gettoken s = at_front (skip_space s) (length-skip_space s)
  where
    at_front : (t : List ℕ) → length t ≤ length s → length (token_at t).rest ≤ length s
    at_front [] h = h
    at_front (c ∷ t) h = omega (arith, length-token_at c t)

-- The input has a token.
abbrev pub HasToken : List ℕ → Type 0
HasToken s = length (gettoken s).rest < length s

pub peek-HasToken : (toks s : List ℕ) → peek toks s ≡ true → HasToken s
unfolding peek gettoken
peek-HasToken toks s h = at_front (skip_space s) (length-skip_space s) h
  where
    at_front :
        (t : List ℕ)
        → length t ≤ length s
        → starts_with toks t ≡ true
        → length (token_at t).rest < length s
    at_front [] le e = absurd (ground arith)
    at_front (c ∷ t) le e = omega (arith, length-token_at c t)

pub ret-HasToken : (s : List ℕ) → ((gettoken s).ret == 0) ≡ false → HasToken s
unfolding gettoken token_at
ret-HasToken s h = at_front (skip_space s) (length-skip_space s) h
  where
    at_front :
        (t : List ℕ)
        → length t ≤ length s
        → ((token_at t).ret == 0) ≡ false
        → length (token_at t).rest < length s
    at_front [] le e = absurd (ground arith)
    at_front (c ∷ t) le e = omega (arith, length-token_at c t)
