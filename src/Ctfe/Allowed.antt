-- ===== src/Ctfe/Allowed.antt =====
-- trillian/ctfe/cert_checker.go: what holds of a certificate that passes the options of a log.
use certificate_transparency.Prelude.{
  ℕ, ◌≡◌, ◌⊎◌, inl, inr, refl, Bool, true, false, not, ◌&&◌, List, [], ◌∷◌, Bool-cases,
  true-ne_false, All, if◌then◌else◌, arith,
}
use certificate_transparency.Prelude.Int.{ℤ, ltz}
use certificate_transparency.Prelude.Outcome.{ok, err}
use certificate_transparency.Prelude.Text.{Text}
use certificate_transparency.Submission.State.{has_text}
use certificate_transparency.Ct.X509.{Certificate, Extension}
use certificate_transparency.Ctfe.Chains.{
  ChainError, Result, CertValidationOpts, is_before_start, is_past_limit, has_bad_extension,
  has_usage, has_accepted_usage, is_none, check_leaf,
}

-- The certificate passes the options at a time: its expiry date is in the window, it is of a CA
-- where only these are accepted, it is not expired or is, as the options say, it has none of the
-- rejected extensions, and one of the accepted usages if there are any.
pub record IsAllowed (opts : CertValidationOpts) (now : ℤ) (cert : Certificate) : Type 0 where
  pub not_early : is_before_start cert.not_after opts.not_after_start ≡ false
  pub not_late : is_past_limit cert.not_after opts.not_after_limit ≡ false
  pub is_ca : opts.accept_only_ca ≡ true → cert.is_ca ≡ true
  pub not_expired : opts.reject_expired ≡ true → ltz cert.not_after now ≡ false
  pub is_expired : opts.reject_unexpired ≡ true → ltz cert.not_after now ≡ true
  pub no_bad_extension :
      All (λ (e : Extension). has_text e.id opts.reject_ext_ids ≡ false) cert.extensions
  pub has_good_usage :
      (opts.ext_key_usages ≡ [])
      ⊎ ((u : ℕ) × (has_usage u cert.ext_key_usage ≡ true)
          × (has_usage u opts.ext_key_usages ≡ true))

pub has_bad_extension-All :
    (ids : List Text) (exts : List Extension)
    → has_bad_extension ids exts ≡ false
    → All (λ (e : Extension). has_text e.id ids ≡ false) exts
unfolding has_bad_extension
has_bad_extension-All ids [] h = tt
has_bad_extension-All ids (e ∷ es) h = elim (Bool-cases (has_text e.id ids)) [
  | inl bad ↦ absurd (true-ne_false refl (rw bad at h))
  | inr good ↦ (good, has_bad_extension-All ids es (rw good at h))
]

pub no_ids-All : (exts : List Extension) → All (λ (e : Extension). has_text e.id [] ≡ false) exts
unfolding has_text
no_ids-All [] = tt
no_ids-All (e ∷ es) = (refl, no_ids-All es)

pub has_accepted_usage-true :
    (accepted us : List ℕ)
    → has_accepted_usage accepted us ≡ true
    → (u : ℕ) × (has_usage u us ≡ true) × (has_usage u accepted ≡ true)
unfolding has_accepted_usage has_usage
has_accepted_usage-true accepted [] h = cc
has_accepted_usage-true accepted (u ∷ us) h = elim (Bool-cases (has_usage u accepted)) [
  | inl yes_it_is ↦ (u, ground arith, yes_it_is)
  | inr other ↦
      let (v, held, good) = has_accepted_usage-true accepted us (rw other at h) in
      (v, ground (arith, held), good)
]

-- What seven tests in a row let through.
pub passed :
    (a b c d e f g : Bool) (e1 e2 e3 e4 e5 e6 e7 : ChainError)
    → ◌≡◌ {A = Result (Unit {0})}
        (if a
          then err e1
          else if b
          then err e2
          else if c
          then err e3
          else if d
          then err e4
          else if e
          then err e5
          else if f
          then err e6
          else if g
          then err e7
          else ok tt)
        (ok tt)
    → (a ≡ false)
      × (b ≡ false)
      × (c ≡ false)
      × (d ≡ false)
      × (e ≡ false)
      × (f ≡ false)
      × (g ≡ false)
passed a b c d e f g e1 e2 e3 e4 e5 e6 e7 h = ground arith

pub check_leaf-IsAllowed :
    (opts : CertValidationOpts) (now : ℤ) (cert : Certificate)
    → check_leaf opts now cert ≡ ok tt
    → IsAllowed opts now cert
unfolding check_leaf
check_leaf-IsAllowed opts now cert h =
    let (early, late, ca, exp, unexp, ext, usage) = passed _ _ _ _ _ _ _ _ _ _ _ _ _ _ h in
    record {
      not_early = early;
      not_late = late;
      is_ca = λ on. both opts.accept_only_ca cert.is_ca ca on;
      not_expired = λ on. and_true opts.reject_expired (ltz cert.not_after now) exp on;
      is_expired = λ on. both opts.reject_unexpired (ltz cert.not_after now) unexp on;
      no_bad_extension = exts opts.reject_ext_ids ext;
      has_good_usage = usages opts.ext_key_usages usage;
    }
  where
    both : (a b : Bool) → a && not b ≡ false → a ≡ true → b ≡ true
    both a b e on = ground arith

    and_true : (a b : Bool) → a && b ≡ false → a ≡ true → b ≡ false
    and_true a b e on = ground arith

    exts :
        (ids : List Text)
        → not (is_none ids) && has_bad_extension ids cert.extensions ≡ false
        → All (λ (e : Extension). has_text e.id ids ≡ false) cert.extensions
    exts [] e = no_ids-All cert.extensions
    exts (i ∷ is) e = has_bad_extension-All (i ∷ is) cert.extensions e

    usages :
        (accepted : List ℕ)
        → not (is_none accepted) && not (has_accepted_usage accepted cert.ext_key_usage) ≡ false
        → (accepted ≡ [])
          ⊎ ((u : ℕ) × (has_usage u cert.ext_key_usage ≡ true) × (has_usage u accepted ≡ true))
    usages [] e = inl refl
    usages (u ∷ us) e = inr (
        has_accepted_usage-true (u ∷ us) cert.ext_key_usage
          (both true (has_accepted_usage (u ∷ us) cert.ext_key_usage) e refl))
