-- ===== src/Decisions/Flow/Traced.antt =====
-- Code that does things in order and then returns or raises, with `do`.
use maivn.Prelude.{List, [], ◌∷◌, ◌++◌, Result, ok, err}

abbrev pub Traced {ℓ} : Type 0 → Type 0 → Type ℓ → Type ℓ
Traced W E A = List W × Result E A

abbrev pub before_rest {ℓ} : {W E : Type 0} {A : Type ℓ} → List W → Traced W E A → Traced W E A
before_rest trace (rest, result) = (trace ++ rest, result)

infixl 5 ◌>>=◌ ◌>>◌
abbrev pub ◌>>=◌ {ℓ κ} :
    {W E : Type 0} {A : Type ℓ} {B : Type κ} → Traced W E A → (A → Traced W E B) → Traced W E B
(trace, ok a) >>= f = before_rest trace (f a)
(trace, err e) >>= f = (trace, err e)

abbrev pub ◌>>◌ {κ} :
    {W E : Type 0} {B : Type κ} → Traced W E (Unit {0}) → Traced W E B → Traced W E B
m >> k = m >>= λ _. k

abbrev pub note : {W E : Type 0} → W → Traced W E (Unit {0})
note w = (w ∷ [], ok tt)

abbrev pub lift {ℓ} : {W E : Type 0} {A : Type ℓ} → Result E A → Traced W E A
lift r = ([], r)

abbrev pub pure {ℓ} : {W E : Type 0} {A : Type ℓ} → A → Traced W E A
pure a = ([], ok a)
