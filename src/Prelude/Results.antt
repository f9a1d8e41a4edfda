-- ===== src/Prelude/Results.antt =====
-- A value or what was raised in its place, with `do`.
use mathlib.Core.Path.{◌≡◌, refl}
use mathlib.Core.Logic.{◌⊎◌, inl, inr}
use mathlib.Core.Bool.{Bool, true, false}

pub data Result {ℓ κ} (E : Type ℓ) (A : Type κ) : Type (ℓ ⊔ κ) where
  ok : A → Result E A
  err : E → Result E A

module _ {ℓ κ μ} {E : Type ℓ} {A : Type κ} {B : Type μ} where
  infixl 5 ◌>>=◌
  -- What was raised passes by the code that follows.
  abbrev pub ◌>>=◌ : Result E A → (A → Result E B) → Result E B
  err exc >>= next = err exc
  ok value >>= next = next value

  -- A chain that succeeds has done its first part.
  pub >>=-ok :
      (first : Result E A) (next : A → Result E B) {last : B}
      → (first >>= next) ≡ ok last
      → (value : A) × (first ≡ ok value) × (next value ≡ ok last)
  >>=-ok (err exc) next h = cc
  >>=-ok (ok value) next h = (value, refl, h)

-- The same, where the first part has nothing to say.
infixl 5 ◌>>◌
abbrev pub ◌>>◌ {ℓ κ} : {E : Type ℓ} {B : Type κ} → Result E (Unit {0}) → Result E B → Result E B
first >> next = first >>= λ done. next

-- Go on where the test holds, and raise where it does not.
abbrev pub demand {ℓ} : {E : Type ℓ} → Bool → E → Result E (Unit {0})
demand true e = ok tt
demand false e = err e

pub demand-eq-ok {ℓ} : {E : Type ℓ} (b : Bool) (e : E) {u : Unit {0}} → demand b e ≡ ok u → b ≡ true
demand-eq-ok true e h = refl
demand-eq-ok false e h = cc

pub ok_injective {ℓ κ} :
    {E : Type ℓ} {A : Type κ} {a b : A} {r : Result E A} → r ≡ ok a → r ≡ ok b → a ≡ b
ok_injective h k = cc

pub Result-cases {ℓ κ} :
    {E : Type ℓ} {A : Type κ} (r : Result E A) → ((a : A) × (r ≡ ok a)) ⊎ ((e : E) × (r ≡ err e))
Result-cases (ok a) = inl (a, refl)
Result-cases (err e) = inr (e, refl)
