-- ===== src/Base/Result.antt =====
-- What a kernel routine can come to: a value, a call of `panic`, or an access through a null
-- pointer or outside an array, which C leaves undefined.
use Prim.Native.String.{String}
use mathlib.Core.Path.{◌≡◌, refl}
use mathlib.Core.Bool.{Bool, true, false}

pub data Result {ℓ} (A : Type ℓ) : Type ℓ where
  ok : A → Result A
  panic : String → Result A
  fault : Result A

infixl 5 ◌>>=◌ ◌>>◌
abbrev pub ◌>>=◌ {κ ℓ} : {A : Type κ} {B : Type ℓ} (m : Result A) (next : A → Result B) → Result B
fault >>= next = fault
panic message >>= next = panic message
ok value >>= next = next value

abbrev pub ◌>>◌ {κ ℓ} : {A : Type κ} {B : Type ℓ} (m : Result A) (after : Result B) → Result B
fault >> after = fault
panic message >> after = panic message
ok value >> after = after

-- `if(bad) panic(e);`
abbrev pub panic_if : Bool → String → Result (Unit {0})
panic_if true e = panic e
panic_if false e = ok tt

-- A chain that ends well has a first step that ended well.
pub >>=-eq-ok {κ ℓ} :
    {B : Type ℓ} {A : Type κ} (m : Result A) (next : A → Result B) {w : B}
    (ended : (m >>= next) ≡ ok w)
    → (v : A) × (m ≡ ok v) × (next v ≡ ok w)
>>=-eq-ok fault next ended = cc
>>=-eq-ok (panic message) next ended = cc
>>=-eq-ok (ok v) next ended = (v, refl, ended)

pub ok-injective {ℓ} : {A : Type ℓ} {a b : A} → ok a ≡ ok b → a ≡ b
ok-injective h = cc

-- The result is no fault, and what is returned has the property.
abbrev pub Ends : {A : Type 0} → (A → Type 0) → Result A → Type 0
Ends P (ok a) = P a
Ends P (panic message) = Unit {0}
Ends P fault = ⊥

pub Ends-bind :
    {A B : Type 0} (P : A → Type 0) (Q : B → Type 0) (m : Result A) (f : A → Result B)
    → Ends P m
    → ((a : A) → P a → Ends Q (f a))
    → Ends Q (m >>= f)
Ends-bind P Q (ok a) f h k = k a h
Ends-bind P Q (panic message) f h k = tt
Ends-bind P Q fault f h k = absurd h

pub Ends-map :
    {A : Type 0} (P Q : A → Type 0) (r : Result A) → ((a : A) → P a → Q a) → Ends P r → Ends Q r
Ends-map P Q (ok a) f h = f a h
Ends-map P Q (panic message) f h = tt
Ends-map P Q fault f h = absurd h
