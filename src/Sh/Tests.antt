-- ===== src/Sh/Tests.antt =====
-- Command lines parsed.
use os.Base.{◌≡◌, ◌⊎◌, refl, [], ◌∷◌, String}
use os.Sh.Ends.{Fits, parsecmd_lem}
use os.Base.Result.{ok, panic}
use os.Sh.{
  Cmd, exec, redir, pipe, back, o_create, skip_space, split_word, token_at, gettoken, peek,
  parseredirs, redirect, parseargs, parsesimple, parsebacks, parse, parsecmd,
}

-- `(a)|b >f&`
parsed :
    parsecmd (b'(' ∷ b'a' ∷ b')' ∷ b'|' ∷ b'b' ∷ b' ' ∷ b'>' ∷ b'f' ∷ b'&' ∷ [])
    ≡ ok (
        back (
          pipe (exec ((b'a' ∷ []) ∷ [])) (
            redir
              (record { file = b'f' ∷ []; mode = o_create; fd = 1 })
              (exec ((b'b' ∷ []) ∷ [])))))
unfolding parsecmd parse parsebacks parsesimple parseargs redirect parseredirs peek gettoken
    token_at split_word skip_space
parsed = refl

parsecmd_lem_example :
    ((cmd : Cmd) × (parsecmd (b'l' ∷ b's' ∷ b';' ∷ []) ≡ ok cmd) × Fits cmd)
    ⊎ ((message : String) × (parsecmd (b'l' ∷ b's' ∷ b';' ∷ []) ≡ panic message))
parsecmd_lem_example = parsecmd_lem (b'l' ∷ b's' ∷ b';' ∷ [])
