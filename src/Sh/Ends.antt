-- ===== src/Sh/Ends.antt =====
-- sh.c: the parser comes to an end on every input.
use os.Base.{
  ℕ, zero, suc, ◌+◌, ◌*◌, ◌≤◌, ◌<◌, ◌≡◌, refl, List, [], ◌∷◌, ◌++◌, ◌==◌, leb, if◌then◌else◌,
  length, arith, Bool-cases, ◌⊎◌, inl, inr, String,
}
use os.Base.Result.{Ends, Ends-bind, Result, ok, panic, fault}
use os.Sh.{
  redir, Cmd, exec, back, pipe, list, Redir, redir_of, Token, skip_space, gettoken, peek, word,
  maxargs, parseredirs, redirect, parseargs, parsesimple, parsebacks, Rule, line, pipeline, block,
  parse, parsecmd,
}
use os.Sh.Tokens.{length-skip_space, length-gettoken, HasToken, peek-HasToken, ret-HasToken}

-- The input left is no longer than `n` bytes.
abbrev Leaves : {A : Type 0} → ℕ → A × List ℕ → Type 0
Leaves n (a, s) = length s ≤ n

parseredirs-Ends :
    (fuel n : ℕ) (redirs : List Redir) (s : List ℕ)
    → length s < fuel
    → length s ≤ n
    → Ends (Leaves n) (parseredirs fuel redirs s)
unfolding parseredirs
parseredirs-Ends zero n redirs s h le = omega arith
parseredirs-Ends (suc fuel) n redirs s h le =
    let tok : Token = gettoken s in
    let file : Token = gettoken tok.rest in
    elim (Bool-cases (peek (b'<' ∷ b'>' ∷ []) s)) [
      | inr done ↦ rw (done) (omega (arith, length-skip_space s))
      | inl more ↦ elim (Bool-cases (file.ret == word)) [
        | inr missing ↦ rw (more, missing) tt
        | inl named ↦
            let shorter : length tok.rest < length s = peek-HasToken (b'<' ∷ b'>' ∷ []) s more in
            let behind : length file.rest ≤ length tok.rest = length-gettoken tok.rest in
            rw (more, named)
              (parseredirs-Ends fuel n (redirs ++ (redir_of tok.ret file.text ∷ [])) file.rest
                (omega arith) (omega arith))
      ]
    ]

-- Each command has fewer than MAXARGS arguments, so that its arrays have room for the last null.
abbrev pub Fits : Cmd → Type 0
Fits (exec argv) = length argv < maxargs
Fits (redir r cmd) = Fits cmd
Fits (pipe left right) = Fits left × Fits right
Fits (list left right) = Fits left × Fits right
Fits (back cmd) = Fits cmd

redirect-Fits : (redirs : List Redir) (cmd : Cmd) → Fits cmd → Fits (redirect redirs cmd)
unfolding redirect
redirect-Fits [] cmd h = h
redirect-Fits (r ∷ redirs) cmd h = redirect-Fits redirs (redir r cmd) h

abbrev Parsed : ℕ → Cmd × List ℕ → Type 0
Parsed n (cmd, s) = (length s ≤ n) × Fits cmd

parseargs-Ends :
    (fuel n : ℕ) (argv : List (List ℕ)) (redirs : List Redir) (s : List ℕ)
    → length s < fuel
    → length s ≤ n
    → length argv < maxargs
    → Ends (Parsed n) (parseargs fuel argv redirs s)
unfolding parseargs
parseargs-Ends zero n argv redirs s h le room = omega arith
parseargs-Ends (suc fuel) n argv redirs s h le room =
    let tok : Token = gettoken s in
    elim (Bool-cases (peek (b'|' ∷ b')' ∷ b'&' ∷ b';' ∷ []) s)) [
      | inl stop ↦
          rw (stop) (omega (arith, length-skip_space s), redirect-Fits redirs (exec argv) room)
      | inr going ↦ elim (Bool-cases (tok.ret == 0)) [
        | inl over ↦
            rw (going, over)
              (omega (arith, length-gettoken s), redirect-Fits redirs (exec argv) room)
        | inr some_token ↦ elim (Bool-cases (tok.ret == word)) [
          | inr other ↦ rw (going, some_token, other) tt
          | inl is_word ↦ elim (Bool-cases (leb maxargs (length (argv ++ (tok.text ∷ []))))) [
            | inl many ↦ rw (going, some_token, is_word, many) tt
            | inr few ↦
                let shorter : length tok.rest < length s = ret-HasToken s some_token in
                rw (going, some_token, is_word, few)
                  (Ends-bind (Leaves (length tok.rest)) (Parsed n)
                    (parseredirs (length tok.rest + 1) redirs tok.rest) _
                    (parseredirs-Ends (length tok.rest + 1) (length tok.rest) redirs tok.rest
                      (omega arith) (omega arith))
                    (λ (redirs', s') left.
                      parseargs-Ends fuel n (argv ++ (tok.text ∷ [])) redirs' s' (omega arith)
                        (omega arith) (ground arith)))
          ]
        ]
      ]
    ]

parsesimple-Ends : (n : ℕ) (s : List ℕ) → length s ≤ n → Ends (Parsed n) (parsesimple s)
unfolding parsesimple
parsesimple-Ends n s le =
    Ends-bind (Leaves (length s)) (Parsed n) (parseredirs (length s + 1) [] s) _
      (parseredirs-Ends (length s + 1) (length s) [] s (omega arith) (omega arith))
      (λ (redirs, s') left.
        parseargs-Ends (length s' + 1) n [] redirs s' (omega arith) (omega arith) (omega arith))

parsebacks-Ends :
    (fuel n : ℕ) (cmd : Cmd) (s : List ℕ)
    → length s < fuel
    → length s ≤ n
    → Fits cmd
    → Ends (Parsed n) (parsebacks fuel cmd s)
unfolding parsebacks
parsebacks-Ends zero n cmd s h le fits = omega arith
parsebacks-Ends (suc fuel) n cmd s h le fits = elim (Bool-cases (peek (b'&' ∷ []) s)) [
  | inr done ↦ rw (done) (omega (arith, length-skip_space s), fits)
  | inl more ↦
      let shorter : HasToken s = peek-HasToken (b'&' ∷ []) s more in
      rw (more)
        (parsebacks-Ends fuel n (back cmd) (gettoken s).rest (omega arith) (omega arith) fits)
]

-- Fuel that is enough for a rule on `n` bytes: a line begins with a pipeline on the same bytes, a
-- pipeline with a block, and a block with a line on fewer.
abbrev needs : Rule → ℕ → ℕ
needs line n = 3 * n + 3
needs pipeline n = 3 * n + 2
needs block n = 3 * n + 1

parse-Ends :
    (fuel n : ℕ) (rule : Rule) (s : List ℕ)
    → needs rule (length s) ≤ fuel
    → length s ≤ n
    → Ends (Parsed n) (parse fuel rule s)
unfolding parse
parse-Ends zero n line s h le = omega arith
parse-Ends zero n pipeline s h le = omega arith
parse-Ends zero n block s h le = omega arith
parse-Ends (suc fuel) n line s h le =
    Ends-bind (Parsed (length s)) (Parsed n) (parse fuel pipeline s) _
      (parse-Ends fuel (length s) pipeline s (omega arith) (omega arith))
      (λ (cmd, s1) (left1, fits1).
        Ends-bind (Parsed (length s1)) (Parsed n) (parsebacks (length s1 + 1) cmd s1) _
          (parsebacks-Ends (length s1 + 1) (length s1) cmd s1 (omega arith) (omega arith) fits1)
          (λ (cmd', s2) (left2, fits2). elim (Bool-cases (peek (b';' ∷ []) s2)) [
            | inr done ↦ rw (done) (omega (arith, length-skip_space s2), fits2)
            | inl more ↦
                let shorter : HasToken s2 = peek-HasToken (b';' ∷ []) s2 more in
                rw (more) (
                  Ends-bind (Parsed n) (Parsed n) (parse fuel line (gettoken s2).rest) _
                    (parse-Ends fuel n line (gettoken s2).rest (omega arith) (omega arith))
                    (λ (right, s3) (left3, fits3). (left3, (fits2, fits3))))
          ]))
parse-Ends (suc fuel) n pipeline s h le =
    Ends-bind (Parsed (length s)) (Parsed n)
      (if peek (b'(' ∷ []) s then parse fuel block s else parsesimple s) _
      (elim (Bool-cases (peek (b'(' ∷ []) s)) [
        | inl nested ↦ rw (nested) (parse-Ends fuel (length s) block s (omega arith) (omega arith))
        | inr simple ↦ rw (simple) (parsesimple-Ends (length s) s (omega arith))
      ])
      (λ (cmd, s1) (left1, fits1). elim (Bool-cases (peek (b'|' ∷ []) s1)) [
        | inr done ↦ rw (done) (omega (arith, length-skip_space s1), fits1)
        | inl more ↦
            let shorter : HasToken s1 = peek-HasToken (b'|' ∷ []) s1 more in
            rw (more) (
              Ends-bind (Parsed n) (Parsed n) (parse fuel pipeline (gettoken s1).rest) _
                (parse-Ends fuel n pipeline (gettoken s1).rest (omega arith) (omega arith))
                (λ (right, s2) (left2, fits2). (left2, (fits1, fits2))))
      ])
parse-Ends (suc fuel) n block s h le = elim (Bool-cases (peek (b'(' ∷ []) s)) [
  | inr other ↦ rw (other) tt
  | inl nested ↦
      let shorter : HasToken s = peek-HasToken (b'(' ∷ []) s nested in
      rw (nested) (
        Ends-bind (Parsed (length s)) (Parsed n) (parse fuel line (gettoken s).rest) _
          (parse-Ends fuel (length s) line (gettoken s).rest (omega arith) (omega arith))
          (λ (cmd, s1) (left1, fits1). elim (Bool-cases (peek (b')' ∷ []) s1)) [
            | inr unclosed ↦ rw (unclosed) tt
            | inl closed ↦
                let behind : length (gettoken s1).rest ≤ length s1 = length-gettoken s1 in
                rw (closed) (
                  Ends-bind (Leaves n) (Parsed n)
                    (parseredirs (length (gettoken s1).rest + 1) [] (gettoken s1).rest) _
                    (parseredirs-Ends (length (gettoken s1).rest + 1) n [] (gettoken s1).rest
                      (omega arith) (omega arith))
                    (λ (redirs, s2) left2. (left2, redirect-Fits redirs cmd fits1)))
          ]))
]

outcome :
    (r : Result Cmd)
    → Ends Fits r
    → ((cmd : Cmd) × (r ≡ ok cmd) × Fits cmd) ⊎ ((message : String) × (r ≡ panic message))
outcome (ok cmd) h = inl (cmd, refl, h)
outcome (panic message) h = inr (message, refl)
outcome fault h = absurd h

-- On every input `parsecmd` comes to an end: it gives a command, in which each simple command has
-- fewer than MAXARGS arguments, or it calls `panic`. It never runs out of the fuel that it is given.
pub parsecmd_lem :
    (s : List ℕ)
    → ((cmd : Cmd) × (parsecmd s ≡ ok cmd) × Fits cmd)
      ⊎ ((message : String) × (parsecmd s ≡ panic message))
unfolding parsecmd
parsecmd_lem s = outcome (parsecmd s) ends
  where
    ends : Ends Fits (parsecmd s)
    ends =
        Ends-bind (Parsed (length s)) Fits (parse (3 * length s + 3) line s) _
          (parse-Ends (3 * length s + 3) (length s) line s (omega arith) (omega arith))
          (λ (cmd, rest) (left, fits). elim (Bool-cases (length (skip_space rest) == 0)) [
            | inl all ↦ rw (all) fits
            | inr leftovers ↦ rw (leftovers) tt
          ])
