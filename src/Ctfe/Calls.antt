-- ===== src/Ctfe/Calls.antt =====
-- trillian/ctfe: a call and a test that were passed.
use certificate_transparency.Prelude.{
  ℕ, ◌≡◌, refl, ap, Bool, true, false, Option, none, some, if◌then◌else◌,
}
use certificate_transparency.Prelude.Outcome.{Outcome, ok, err, panic, diverge, ok_inj, err-ne_ok}
use certificate_transparency.Ctfe.Backend.{Rpc, from_rpc, or_status, or_missing}

pub or_status-eq-ok :
    {E A : Type 0} (status : ℕ) (o : Outcome E A) (a : A) → or_status status o ≡ ok a → o ≡ ok a
or_status-eq-ok status (ok b) a h = ap ok (ok_inj h)
or_status-eq-ok status (err e) a h = cc
or_status-eq-ok status panic a h = cc
or_status-eq-ok status diverge a h = cc

pub from_rpc-eq-ok : {A : Type 0} (o : Rpc A) (a : A) → from_rpc o ≡ ok a → o ≡ ok a
from_rpc-eq-ok (ok b) a h = ap ok (ok_inj h)
from_rpc-eq-ok (err e) a h = cc
from_rpc-eq-ok panic a h = cc
from_rpc-eq-ok diverge a h = cc

pub or_missing-eq-ok :
    {A : Type 0} (status : ℕ) (o : Option A) (a : A) → or_missing status o ≡ ok a → o ≡ some a
or_missing-eq-ok status none a h = cc
or_missing-eq-ok status (some b) a h = ap some (ok_inj h)

pub one_passed :
    {E A : Type 0} (b : Bool) (e : E) (r : Outcome E A) (a : A)
    → (if b then err e else r) ≡ ok a
    → (b ≡ false) × (r ≡ ok a)
one_passed true e r a h = absurd (err-ne_ok h)
one_passed false e r a h = (refl, h)

-- What is refused unless a test holds.
pub tested :
    {E A : Type 0} (b : Bool) (e : E) (r : Outcome E A) (a : A)
    → (if b then r else err e) ≡ ok a
    → (b ≡ true) × (r ≡ ok a)
tested true e r a h = (refl, h)
tested false e r a h = absurd (err-ne_ok h)
