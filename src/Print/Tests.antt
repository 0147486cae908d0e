-- ===== src/Print/Tests.antt =====
-- Formats and numbers.
use os.Base.{ℕ, ◌-◌, ◌^◌, ◌≡◌, refl, true, some, List, [], ◌∷◌, arith}
use os.Base.Result.{ok, fault}
use os.Print.{printint, printf, cprintf, atoi}
use os.Print.Decimal.{atoi-printint}
use os.Print.Same.{cprintf-printf}

-- -305
atoi-printint_example :
    (text : List ℕ) × (s : List ℕ) × (printint (2 ^ 32 - 305) 10 true ≡ ok text)
    × (text ≡ b'-' ∷ s)
    × (atoi s ≡ 305)
    × (atoi text ≡ 0)
atoi-printint_example = atoi-printint (2 ^ 32 - 305) (omega arith)

printint_negative : printint (2 ^ 32 - 305) 10 true ≡ ok (b'-' ∷ b'3' ∷ b'0' ∷ b'5' ∷ [])
unfolding printint
printint_negative = refl

abbrev format : List ℕ
format = b'p' ∷ b'%' ∷ b'd' ∷ b' ' ∷ b'%' ∷ b's' ∷ b'%' ∷ b'%' ∷ []

abbrev strings : ℕ → List ℕ
strings a = b'k' ∷ b'!' ∷ []

cprintf-printf_example :
    cprintf strings (some format) (12 ∷ 4 ∷ []) ≡ printf strings format (12 ∷ 4 ∷ [])
cprintf-printf_example = cprintf-printf strings format (12 ∷ 4 ∷ []) refl

printf_run :
    printf strings format (12 ∷ 4 ∷ []) ≡ ok (b'p' ∷ b'1' ∷ b'2' ∷ b' ' ∷ b'k' ∷ b'!' ∷ b'%' ∷ [])
unfolding printf
printf_run = refl

printf_no_argument : printf strings format [] ≡ fault
unfolding printf
printf_no_argument = refl
