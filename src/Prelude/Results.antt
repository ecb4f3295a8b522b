-- ===== src/Prelude/Results.antt =====
-- A result type for code that throws, with `do` blocks.
use mathlib.Core.Path.{◌≡◌, refl}
use mathlib.Core.Bool.{Bool, true, false}
use mathlib.Core.Option.{Option, none, some}

pub data Result {ℓ κ} (E : Type ℓ) (A : Type κ) : Type (ℓ ⊔ κ) where
  ok : A → Result E A
  err : E → Result E A

-- `if (value === null) throw error`.
abbrev pub or_throw {ε ℓ} : {E : Type ε} {A : Type ℓ} → Option A → E → Result E A
or_throw none error = err error
or_throw (some value) error = ok value

-- `if (!test) throw error`.
abbrev pub guard {ε} : {E : Type ε} → Bool → E → Result E (Unit {0})
guard false error = err error
guard true error = ok tt

infixl 5 ◌>>=◌ ◌>>◌
abbrev pub ◌>>=◌ {ε ℓ κ} :
    {E : Type ε} {A : Type ℓ} {B : Type κ} → Result E A → (A → Result E B) → Result E B
err error >>= next = err error
ok value >>= next = next value

abbrev pub ◌>>◌ {ε κ} : {E : Type ε} {B : Type κ} → Result E (Unit {0}) → Result E B → Result E B
first >> rest = first >>= λ done. rest

-- What a block that returned has returned from its first step.
pub >>=-eq-ok {ε ℓ κ} :
    {E : Type ε} {A : Type ℓ} {B : Type κ} (first : Result E A) (next : A → Result E B) {b : B}
    → (first >>= next) ≡ ok b
    → (a : A) × (first ≡ ok a) × (next a ≡ ok b)
>>=-eq-ok (err error) next h = cc
>>=-eq-ok (ok value) next h = (value, refl, h)
