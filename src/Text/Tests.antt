-- ===== src/Text/Tests.antt =====
-- Runs of the string functions.
use os.Base.{◌≡◌, refl, [], ◌∷◌}
use os.Machine.{Mem, store_bytes}
use os.Text.{memmove}

abbrev letters : Mem
letters = store_bytes (λ x. 0) 100 (65 ∷ 66 ∷ 67 ∷ 68 ∷ [])

-- The ranges overlap.
moved_up : memmove letters 102 100 4 105 ≡ 68
unfolding memmove store_bytes
moved_up = refl
