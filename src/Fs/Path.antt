-- ===== src/Fs/Path.antt =====
-- fs.c: paths.  A path is the list of its bytes before the NUL.
pub mod Elements
use os.Base.{ℕ, Bool, true, false, Option, none, some, List, [], ◌∷◌, ◌==◌, if◌then◌else◌, take}

abbrev pub slash : ℕ
slash = b'/'

abbrev pub dirsiz : ℕ
dirsiz = 14

-- `while(*path == '/') path++;`
unfoldable pub skip_slashes : List ℕ → List ℕ
skip_slashes [] = []
skip_slashes (c ∷ path) = if c == slash then skip_slashes path else c ∷ path

-- The element in front, and the path from the slash behind it on.
unfoldable pub split_elem : List ℕ → List ℕ × List ℕ
split_elem [] = ([], [])
split_elem (c ∷ path) =
    let (elem, rest) = split_elem path in if c == slash then ([], c ∷ path) else (c ∷ elem, rest)

-- The name holds at most `DIRSIZ` bytes.
unfoldable pub skipelem : List ℕ → Option (List ℕ × List ℕ)
unfolding skip_slashes split_elem
skipelem path = elim (skip_slashes path) [
  | [] ↦ none
  | c ∷ from ↦
      let (elem, rest) = split_elem (c ∷ from) in some (take dirsiz elem, skip_slashes rest)
]
