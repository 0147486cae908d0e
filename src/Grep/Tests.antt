-- ===== src/Grep/Tests.antt =====
-- Runs of the matcher and of a round of `grep`.
use os.Base.{◌≡◌, refl, inr, true, [], ◌∷◌, arith}
use os.Grep.{matches, search_from, matchhere, grep_round, take_lines, cut, newline}
use os.Grep.Matches.{Here, last, more, none, matches_iff}
use os.Grep.Chunks.{grep_round_lem}

-- `a*b` in the text `xaab`.
matches_iff_example : matches (b'a' ∷ b'*' ∷ b'b' ∷ []) (b'x' ∷ b'a' ∷ b'a' ∷ b'b' ∷ []) ≡ true
matches_iff_example =
    (matches_iff (b'a' ∷ b'*' ∷ b'b' ∷ []) (b'x' ∷ b'a' ∷ b'a' ∷ b'b' ∷ [])).1
      (inr (omega arith, (b'x' ∷ [], b'a' ∷ b'a' ∷ b'b' ∷ [], refl, here)))
  where
    here : Here (b'a' ∷ b'*' ∷ b'b' ∷ []) (b'a' ∷ b'a' ∷ b'b' ∷ [])
    here = more b'a' b'*' b'a' (b'b' ∷ []) (b'a' ∷ b'b' ∷ []) refl (inr refl) (
        more b'a' b'*' b'a' (b'b' ∷ []) (b'b' ∷ []) refl (inr refl) (
          none b'a' b'*' (b'b' ∷ []) (b'b' ∷ []) refl (last b'b' b'b' [] (omega arith) (inr refl))))

-- The line `ab` is printed, and `c` is kept.
grep_round_lem_example :
    grep_round (b'a' ∷ []) (b'a' ∷ []) (b'b' ∷ newline ∷ b'c' ∷ [])
    ≡ (b'a' ∷ b'b' ∷ newline ∷ [], b'c' ∷ [])
unfolding matches search_from matchhere
grep_round_lem_example =
    grep_round_lem (b'a' ∷ []) (b'a' ∷ []) (b'b' ∷ newline ∷ b'c' ∷ []) (b'c' ∷ [])
      ((b'a' ∷ b'b' ∷ []) ∷ []) ((omega arith, omega arith, (omega arith, omega arith, tt)), tt)
      (omega arith, inr tt) refl

-- A NUL before the first newline hides the lines behind it.
grep_round_nul : grep_round (b'a' ∷ []) [] (b'a' ∷ 0 ∷ b'b' ∷ newline ∷ b'c' ∷ []) ≡ ([], [])
unfolding grep_round take_lines cut
grep_round_nul = refl
