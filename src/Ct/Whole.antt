-- ===== src/Ct/Whole.antt =====
-- serialization.go and types.go: a structure that is the whole of the bytes it is read from.
use certificate_transparency.Prelude.{
  ℕ, ◌≡◌, ◌≢◌, refl, sym, ap, true, Option, none, some, List, [], ◌∷◌, All, append-nil, ◌∙◌,
}
use certificate_transparency.Prelude.Bytes.{IsByte}
use certificate_transparency.Prelude.Outcome.{
  Outcome, ok, err, panic, diverge, ◌>>=◌, Returns, ok-Returns, err-Returns, >>=-Returns, >>=-eq-ok,
  ok_inj,
}
use certificate_transparency.Tls.Tag.{TlsError}
use certificate_transparency.Tls.Types.{GoType, Val}
use certificate_transparency.Tls.Parse.{unmarshal}
use certificate_transparency.Tls.Marshal.{marshal}
use certificate_transparency.Tls.Codable.{is_codable, is_proper, IsVal}
use certificate_transparency.Tls.Canonical.{marshal-unmarshal_params}
use certificate_transparency.Tls.RoundTrip.{unmarshal-marshal_params}
use certificate_transparency.Tls.Total.{unmarshal-Returns}
use certificate_transparency.Ct.Signed.{Result, from_tls, deref}
use certificate_transparency.Ct.Entries.{whole, unmarshal_all}

pub from_tls-Returns : {A : Type 0} (m : Outcome TlsError A) → Returns m → Returns (from_tls m)
from_tls-Returns (ok a) h = ok-Returns a
from_tls-Returns (err e) h = err-Returns _
from_tls-Returns panic h = absurd (h.0 refl)
from_tls-Returns diverge h = absurd (h.1 refl)

pub from_tls-ok : {A : Type 0} (m : Outcome TlsError A) (a : A) → from_tls m ≡ ok a → m ≡ ok a
from_tls-ok (ok b) a h = ap ok (ok_inj h)
from_tls-ok (err e) a h = cc
from_tls-ok panic a h = cc
from_tls-ok diverge a h = cc

pub whole-ok : {A : Type 0} (r : A × List ℕ) (v : A) → whole r ≡ ok v → r ≡ (v, [])
whole-ok (a, []) v h = ap (λ z. (z, [])) (ok_inj h)
whole-ok (a, x ∷ xs) v h = cc

whole-Returns : {A : Type 0} (r : A × List ℕ) → Returns (whole r)
whole-Returns (a, []) = ok-Returns a
whole-Returns (a, x ∷ xs) = err-Returns _

pub unmarshal_all-ok :
    (t : GoType) (b : List ℕ) (v : Val t) → unmarshal_all t b ≡ ok v → unmarshal t b ≡ ok (v, [])
unfolding unmarshal_all
unmarshal_all-ok t b v h =
    let (r, read, all) = >>=-eq-ok (from_tls (unmarshal t b)) _ h in
    from_tls-ok (unmarshal t b) (v, []) (read ∙ ap ok (whole-ok r v all))

pub unmarshal_all-Returns :
    (t : GoType) (b : List ℕ) → is_proper t ≡ true → Returns (unmarshal_all t b)
unfolding unmarshal_all unmarshal
unmarshal_all-Returns t b p =
    >>=-Returns (from_tls (unmarshal t b)) _
      (from_tls-Returns (unmarshal t b) (unmarshal-Returns t [] b p)) (λ r _. whole-Returns r)

-- What was read whole is what is written back.
pub marshal-unmarshal_all :
    (t : GoType) (b : List ℕ) (v : Val t)
    → is_codable t none ≡ true
    → All IsByte b
    → unmarshal_all t b ≡ ok v
    → IsVal t v × (marshal t v ≡ ok b)
unfolding unmarshal marshal
marshal-unmarshal_all t b v c small h =
    let (value, (bs, written, front)) =
      marshal-unmarshal_params t [] b v [] c small (unmarshal_all-ok t b v h) in
    (value, written ∙ ap ok (sym (front ∙ append-nil bs)))

pub unmarshal_all-marshal :
    (t : GoType) (v : Val t) (b : List ℕ)
    → is_codable t none ≡ true
    → IsVal t v
    → marshal t v ≡ ok b
    → unmarshal_all t b ≡ ok v
unfolding unmarshal marshal unmarshal_all
unmarshal_all-marshal t v b c value h =
    rw (rw (append-nil b) at (unmarshal-marshal_params t v [] b [] c value h)) refl

pub deref-Returns : {A : Type 0} (o : Option A) → o ≢ none → Returns (deref o)
deref-Returns none h = absurd (h refl)
deref-Returns (some a) h = ok-Returns a

pub deref-ok : {A : Type 0} (o : Option A) (a : A) → deref o ≡ ok a → o ≡ some a
deref-ok none a h = cc
deref-ok (some b) a h = ap some (ok_inj h)

pub deref->>=_Returns :
    {A B : Type 0} (o : Option A) (a : A) (f : A → Result B)
    → o ≡ some a
    → Returns (f a)
    → Returns (deref o >>= f)
deref->>=_Returns o a f e h = rw e h
