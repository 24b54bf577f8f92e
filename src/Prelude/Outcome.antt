-- ===== src/Prelude/Outcome.antt =====
-- Computations that may raise: a value, or the exception as a value of `E`.
use mathlib.Core.Path.{◌≡◌, refl}
use mathlib.Core.Logic.{◌⊎◌, inl, inr}
use mathlib.Core.Bool.{Bool, true, false}

pub data Result (E A : Type 0) : Type 0 where
  ok : A → Result E A
  err : E → Result E A

infixl 5 ◌>>=◌ ◌>>◌
abbrev pub ◌>>=◌ : {E A B : Type 0} → Result E A → (A → Result E B) → Result E B
ok a >>= f = f a
err e >>= f = err e

abbrev pub ◌>>◌ : {E B : Type 0} → Result E (Unit {0}) → Result E B → Result E B
m >> k = m >>= λ _. k

-- `if c: raise e`
abbrev pub raise_if : {E : Type 0} → Bool → E → Result E (Unit {0})
raise_if true e = err e
raise_if false e = ok tt

pub Result-cases :
    {E A : Type 0} (r : Result E A) → ((a : A) × (r ≡ ok a)) ⊎ ((x : E) × (r ≡ err x))
Result-cases (ok a) = inl (a, refl)
Result-cases (err x) = inr (x, refl)

pub ok_injective : {E A : Type 0} {a b : A} → (Path (Result E A) (ok a) (ok b)) → a ≡ b
ok_injective h = cc

pub err_injective : {E A : Type 0} {x y : E} → (Path (Result E A) (err x) (err y)) → x ≡ y
err_injective h = cc

-- Inversions of computations that succeed.
pub >>=-ok :
    {E A B : Type 0} (m : Result E A) (f : A → Result E B) {b : B}
    → (m >>= f) ≡ ok b
    → (a : A) × (m ≡ ok a) × (f a ≡ ok b)
>>=-ok (ok a) f h = (a, refl, h)
>>=-ok (err x) f h = absurd (cc h)

pub >>-ok :
    {E B : Type 0} (m : Result E (Unit {0})) (k : Result E B) {b : B} → (m >> k) ≡ ok b → k ≡ ok b
>>-ok (ok u) k h = h
>>-ok (err x) k h = absurd (cc h)

pub >>-first :
    {E B : Type 0} (m : Result E (Unit {0})) (k : Result E B) {b : B} → (m >> k) ≡ ok b → m ≡ ok tt
>>-first (ok u) k h = refl
>>-first (err x) k h = absurd (cc h)

pub raise_if-false : {E : Type 0} (c : Bool) (e : E) → raise_if c e ≡ ok tt → c ≡ false
raise_if-false true e h = absurd (cc h)
raise_if-false false e h = refl
