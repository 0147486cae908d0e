-- ===== src/Sh.antt =====
-- sh.c: the shell's parser. The input is the list of its bytes, without the NUL; a token's text is the
-- list from `q` to `eq`, which is what the string is once `nulterminate` has put a NUL at `eq`. A
-- `struct cmd*` is the command itself, and `malloc` succeeds. The parser's loops and its recursion
-- have fuel.
pub mod Tokens
pub mod Ends
mod Tests
use os.Base.{
  ℕ, zero, suc, ◌+◌, ◌-◌, ◌*◌, Bool, true, false, not, ◌&&◌, ◌||◌, List, [], ◌∷◌, ◌++◌, ◌==◌, ltb,
  leb, if◌then◌else◌, length,
}
use os.Base.Result.{Result, ok, panic, fault, ◌>>=◌, ◌>>◌}

-- A redirection's file, mode and descriptor.
pub record Redir : Type 0 where
  pub file : List ℕ
  pub mode : ℕ
  pub fd : ℕ

pub data Cmd : Type 0 where
  exec : List (List ℕ) → Cmd
  redir : Redir → Cmd → Cmd
  pipe list : Cmd → Cmd → Cmd
  back : Cmd → Cmd

abbrev pub maxargs : ℕ
maxargs = 10

-- fcntl.h's O_RDONLY, and O_WRONLY|O_CREATE.
abbrev pub o_rdonly : ℕ
o_rdonly = 0

abbrev pub o_create : ℕ
o_create = 0x201

-- The bytes of " \t\r\n\v".
abbrev pub is_space : ℕ → Bool
is_space c = c == b' ' || c == 9 || c == 13 || c == 10 || c == 11

-- The bytes of "<|>&;()".
abbrev pub is_symbol : ℕ → Bool
is_symbol c =
    c == b'<' || c == b'|' || c == b'>' || c == b'&' || c == b';' || c == b'(' || c == b')'

unfoldable pub skip_space : List ℕ → List ℕ
skip_space [] = []
skip_space (c ∷ s) = let rest : List ℕ = skip_space s in if is_space c then rest else c ∷ s

unfoldable pub split_word : List ℕ → List ℕ × List ℕ
split_word [] = ([], [])
split_word (c ∷ s) =
    let rest : List ℕ × List ℕ = split_word s in
    if is_space c || is_symbol c then ([], c ∷ s) else (c ∷ rest.0, rest.1)

-- What `gettoken` returns, the token's text, and the input behind it.
pub record Token : Type 0 where
  pub ret : ℕ
  pub text : List ℕ
  pub rest : List ℕ

abbrev pub word : ℕ
word = b'a'

abbrev pub append : ℕ
append = b'+'

-- `>` or `>>`, from the byte behind the first on.
abbrev pub output_token : List ℕ → Token
output_token [] = record { ret = b'>'; text = b'>' ∷ []; rest = [] }
output_token (c ∷ s) =
    if c == b'>'
    then record { ret = append; text = b'>' ∷ b'>' ∷ []; rest = skip_space s }
    else record { ret = b'>'; text = b'>' ∷ []; rest = skip_space (c ∷ s) }

-- The token of an input without white space in front.
unfoldable pub token_at : List ℕ → Token
unfolding skip_space split_word
token_at [] = record { ret = 0; text = []; rest = [] }
token_at (c ∷ s) =
    if c == b'>'
    then output_token s
    else if is_symbol c
    then record { ret = c; text = c ∷ []; rest = skip_space s }
    else record {
      ret = word;
      text = (split_word (c ∷ s)).0;
      rest = skip_space (split_word (c ∷ s)).1;
    }

unfoldable pub gettoken : List ℕ → Token
unfolding skip_space token_at
gettoken s = token_at (skip_space s)

abbrev pub mem : ℕ → List ℕ → Bool
mem c [] = false
mem c (t ∷ toks) = c == t || mem c toks

abbrev pub starts_with : List ℕ → List ℕ → Bool
starts_with toks [] = false
starts_with toks (c ∷ s) = mem c toks

-- The input after `peek` is `skip_space s`.
unfoldable pub peek : List ℕ → List ℕ → Bool
unfolding skip_space
peek toks s = starts_with toks (skip_space s)

-- The redirection of a token `<`, `>` or `>>`.
abbrev pub redir_of : ℕ → List ℕ → Redir
redir_of tok file =
    if tok == b'<'
    then record { file = file; mode = o_rdonly; fd = 0 }
    else record { file = file; mode = o_create; fd = 1 }

-- The redirections in the order in which they stand.
unfoldable pub parseredirs : ℕ → List Redir → List ℕ → Result (List Redir × List ℕ)
unfolding gettoken peek
parseredirs zero redirs s = fault
parseredirs (suc fuel) redirs s =
    let tok : Token = gettoken s in
    let file : Token = gettoken tok.rest in
    let more = parseredirs fuel (redirs ++ (redir_of tok.ret file.text ∷ [])) file.rest in
    if peek (b'<' ∷ b'>' ∷ []) s
    then if file.ret == word then more else panic "missing file for redirection"
    else ok (redirs, skip_space s)

-- `redircmd` for each: the last one is outermost.
unfoldable pub redirect : List Redir → Cmd → Cmd
redirect [] cmd = cmd
redirect (r ∷ redirs) cmd = redirect redirs (redir r cmd)

-- The loop of `parseexec`.
unfoldable pub parseargs : ℕ → List (List ℕ) → List Redir → List ℕ → Result (Cmd × List ℕ)
unfolding gettoken peek parseredirs redirect
parseargs zero argv redirs s = fault
parseargs (suc fuel) argv redirs s =
    let tok : Token = gettoken s in
    let argv' : List (List ℕ) = argv ++ (tok.text ∷ []) in
    let next : Result (Cmd × List ℕ) = (do
      (redirs', s') ← parseredirs (length tok.rest + 1) redirs tok.rest
      parseargs fuel argv' redirs' s') in
    if peek (b'|' ∷ b')' ∷ b'&' ∷ b';' ∷ []) s
    then ok (redirect redirs (exec argv), skip_space s)
    else if tok.ret == 0
    then ok (redirect redirs (exec argv), tok.rest)
    else if not (tok.ret == word)
    then panic "syntax"
    else if leb maxargs (length argv')
    then panic "too many args"
    else next

unfoldable pub parsesimple : List ℕ → Result (Cmd × List ℕ)
unfolding parseredirs parseargs
parsesimple s = do
  (redirs, s') ← parseredirs (length s + 1) [] s
  parseargs (length s' + 1) [] redirs s'

-- The loop of `parseline` over `&`.
unfoldable pub parsebacks : ℕ → Cmd → List ℕ → Result (Cmd × List ℕ)
unfolding gettoken peek
parsebacks zero cmd s = fault
parsebacks (suc fuel) cmd s =
    let rest = parsebacks fuel (back cmd) (gettoken s).rest in
    if peek (b'&' ∷ []) s then rest else ok (cmd, skip_space s)

pub data Rule : Type 0 where
  line pipeline block : Rule

-- `parseline`, `parsepipe` and `parseblock`, with the rule given: `parseexec` is `block` behind a
-- parenthesis and `parsesimple` otherwise.
unfoldable pub parse : ℕ → Rule → List ℕ → Result (Cmd × List ℕ)
unfolding gettoken peek parseredirs redirect parsesimple parsebacks
parse zero rule s = fault
parse (suc fuel) line s =
    let again : List ℕ → Result (Cmd × List ℕ) = parse fuel line in
    (do
      (cmd, s1) ← parse fuel pipeline s
      (cmd', s2) ← parsebacks (length s1 + 1) cmd s1
      if peek (b';' ∷ []) s2
          then (do (right, s3) ← again (gettoken s2).rest; ok (list cmd' right, s3))
          else ok (cmd', skip_space s2))
parse (suc fuel) pipeline s =
    let again : List ℕ → Result (Cmd × List ℕ) = parse fuel pipeline in
    let inner : Result (Cmd × List ℕ) = parse fuel block s in
    (do
      (cmd, s1) ← (if peek (b'(' ∷ []) s then inner else parsesimple s)
      if peek (b'|' ∷ []) s1
          then (do (right, s2) ← again (gettoken s1).rest; ok (pipe cmd right, s2))
          else ok (cmd, skip_space s1))
parse (suc fuel) block s =
    let inner : Result (Cmd × List ℕ) = parse fuel line (gettoken s).rest in
    if not (peek (b'(' ∷ []) s) then panic "parseblock" else (do
      (cmd, s1) ← inner
      if not (peek (b')' ∷ []) s1) then panic "syntax - missing )" else (do
        (redirs, s2) ← parseredirs (length (gettoken s1).rest + 1) [] (gettoken s1).rest
        ok (redirect redirs cmd, s2)))

unfoldable pub parsecmd : List ℕ → Result Cmd
unfolding parse
parsecmd s = do
  (cmd, rest) ← parse (3 * length s + 3) line s
  if length (skip_space rest) == 0 then ok cmd else panic "syntax"
