-- ===== src/Prelude/Outcome.antt =====
-- How a Go function ends: with a value and a nil error, with an error, by a panic, or not at all.
use mathlib.Core.Path.{◌≡◌, refl, ap}
use mathlib.Core.Logic.{◌≢◌}

pub data Outcome {ℓ} (E : Type 0) (A : Type ℓ) : Type ℓ where
  ok : A → Outcome E A
  err : E → Outcome E A
  panic : Outcome E A
  diverge : Outcome E A

infixl 5 ◌>>=◌ ◌>>◌
abbrev pub ◌>>=◌ {ℓ κ} :
    {E : Type 0} {A : Type ℓ} {B : Type κ} → Outcome E A → (A → Outcome E B) → Outcome E B
ok a >>= f = f a
err e >>= f = err e
panic >>= f = panic
diverge >>= f = diverge

abbrev pub ◌>>◌ {ℓ} : {E : Type 0} {B : Type ℓ} → Outcome E (Unit {0}) → Outcome E B → Outcome E B
m >> k = m >>= λ _. k

-- A sequence of two calls that succeeds: both do.
pub >>=-eq-ok {ℓ κ} :
    {E : Type 0} {A : Type ℓ} {B : Type κ} (first : Outcome E A) (then : A → Outcome E B) {r : B}
    → first >>= then ≡ ok r
    → (v : A) × (first ≡ ok v) × (then v ≡ ok r)
>>=-eq-ok diverge then same = cc
>>=-eq-ok panic then same = cc
>>=-eq-ok (err failed) then same = cc
>>=-eq-ok (ok v) then same = (v, refl, same)

-- A call that returns: neither a panic nor an endless loop.
abbrev pub Returns {ℓ} : {E : Type 0} {A : Type ℓ} → Outcome E A → Type ℓ
Returns r = (r ≢ panic) × (r ≢ diverge)

pub ok-Returns {ℓ} : {E : Type 0} {A : Type ℓ} (a : A) → Returns {E = E} (ok a)
ok-Returns a = ((λ e. cc), (λ e. cc))

pub err-Returns {ℓ} : {E : Type 0} {A : Type ℓ} (e : E) → Returns {A = A} (err e)
err-Returns e = ((λ h. cc), (λ h. cc))

pub >>=-Returns {ℓ κ} :
    {E : Type 0} {A : Type ℓ} {B : Type κ} (m : Outcome E A) (f : A → Outcome E B)
    → Returns m
    → ((a : A) → m ≡ ok a → Returns (f a))
    → Returns (m >>= f)
>>=-Returns (ok a) f h k = k a refl
>>=-Returns (err e) f h k = err-Returns e
>>=-Returns panic f h k = absurd (h.0 refl)
>>=-Returns diverge f h k = absurd (h.1 refl)

value_or {ℓ} : {E : Type 0} {A : Type ℓ} → A → Outcome E A → A
value_or d (ok a) = a
value_or d _ = d

pub ok_inj {ℓ} : {E : Type 0} {A : Type ℓ} {a b : A} → ◌≡◌ {A = Outcome E A} (ok a) (ok b) → a ≡ b
unfolding value_or
ok_inj {a} h = ap (value_or a) h

pub err-ne_ok {ℓ} : {E : Type 0} {A : Type ℓ} {e : E} {a : A} → err e ≡ ok a → ⊥
err-ne_ok h = cc
