-- ===== src/Console/Cursor.antt =====
-- console.c: the cursor stays on the screen.
use os.Base.{
  ℕ, ◌-◌, ◌*◌, ◌/◌, ◌%◌, ◌<◌, ◌≤◌, ◌≡◌, inl, inr, List, [], ◌∷◌, ◌==◌, ltb, leb, refl, Bool-cases,
  arith, ◌++◌, false, if◌then◌else◌,
}
use os.Base.Result.{ok}
use os.Console.{Screen, backspace, place, cgaputc, consputc, consolewrite, set_cell, scrolled}

-- The cursor is on one of the 24 lines.
abbrev pub OnScreen : Screen → Type 0
OnScreen s = s.cursor < 24 * 80

place-le : (c : ℕ) (s : Screen) → OnScreen s → (place c s).0 ≤ 24 * 80
unfolding place
place-le c s on = ground arith

cgaputc_lem : (c : ℕ) (s : Screen) → OnScreen s → (t : Screen) × (cgaputc c s ≡ ok t) × OnScreen t
unfolding cgaputc
cgaputc_lem c s on =
    let small : (place c s).0 ≤ 24 * 80 = place-le c s on in
    let p : ℕ = (place c s).0 in
    let crt : ℕ → ℕ = (place c s).1 in
    let fits : ltb (25 * 80) p ≡ false = ground arith in
    elim (Bool-cases (leb 24 (p / 80))) [
      | inl low ↦ (
        record s { cursor = p - 80; crt = set_cell (scrolled crt (p - 80)) (p - 80) 0x720 },
        rw (fits, low) refl,
        ground arith,
      )
      | inr high ↦
          (record s { cursor = p; crt = set_cell crt p 0x720 }, rw (fits, high) refl, ground arith)
    ]

pub consputc_ends :
    (c : ℕ) (s : Screen) → OnScreen s → (t : Screen) × (consputc c s ≡ ok t) × OnScreen t
unfolding consputc
consputc_ends c s on =
    cgaputc_lem c
      (record s { serial = s.serial ++ (if c == backspace then 8 ∷ 32 ∷ 8 ∷ [] else c ∷ []) }) on

-- From a cursor on the screen, `consolewrite` never panics whatever bytes it is given, and leaves the
-- cursor on the screen.
pub consolewrite_lem :
    (bytes : List ℕ) (s : Screen)
    → s.cursor < 24 * 80
    → (t : Screen) × (consolewrite bytes s ≡ ok t) × (t.cursor < 24 * 80)
unfolding consolewrite
consolewrite_lem [] s on = (s, refl, on)
consolewrite_lem (b ∷ bs) s on =
    let (u, put, kept) = consputc_ends (b % 256) s on in
    let (t, rest, end) = consolewrite_lem bs u kept in (t, rw (put) rest, end)
