-- ===== src/Ctfe/Chains.antt =====
-- trillian/ctfe/cert_checker.go, and verifyAddChain of handlers.go: which chains a log accepts.
use certificate_transparency.Prelude.{
  ℕ, ◌+◌, Bool, true, false, not, ◌&&◌, ◌||◌, List, [], ◌∷◌, Option, none, some, ◌==◌, length,
  if◌then◌else◌,
}
use certificate_transparency.Prelude.Int.{ℤ, ltz}
use certificate_transparency.Prelude.Outcome.{Outcome, ok, err, panic, ◌>>=◌, ◌>>◌}
use certificate_transparency.Prelude.Text.{Text, codes, text_eq}
use certificate_transparency.Ct.X509.{Certificate, Extension, Parsed, fatal, parsed}
use certificate_transparency.Submission.State.{has_text}

pub data ChainError : Type 0 where
  not_parsed too_early too_late not_ca expired unexpired bad_extension bad_usage : ChainError
  not_verified no_path not_compliant bad_poison wrong_type : ChainError

abbrev pub Result {ℓ} : Type ℓ → Type ℓ
Result A = Outcome ChainError A

-- The options, without the pool of trusted roots, which is the verifier's.
pub record CertValidationOpts : Type 0 where
  pub current_time : Option ℤ
  pub reject_expired : Bool
  pub reject_unexpired : Bool
  pub not_after_start : Option ℤ
  pub not_after_limit : Option ℤ
  pub accept_only_ca : Bool
  pub ext_key_usages : List ℕ
  pub reject_ext_ids : List Text

abbrev null_bytes : List ℕ
null_bytes = 5 ∷ 0 ∷ []

-- `IsPrecertificate`.
unfoldable pub is_precertificate : List Extension → Result Bool
unfolding text_eq
is_precertificate [] = ok false
is_precertificate (ext ∷ exts) =
    let rest = is_precertificate exts in
    if text_eq ext.id (codes "1.3.6.1.4.1.11129.2.4.3")
    then if not ext.critical || not (text_eq null_bytes ext.value) then err bad_poison else ok true
    else rest

abbrev pub is_before_start : ℤ → Option ℤ → Bool
is_before_start not_after none = false
is_before_start not_after (some start) = ltz not_after start

abbrev pub is_past_limit : ℤ → Option ℤ → Bool
is_past_limit not_after none = false
is_past_limit not_after (some limit) = not (ltz not_after limit)

-- An extension of the certificate is among the rejected ones.
unfoldable pub has_bad_extension : List Text → List Extension → Bool
unfolding has_text
has_bad_extension bad_ids [] = false
has_bad_extension bad_ids (ext ∷ exts) =
    let rest = has_bad_extension bad_ids exts in if has_text ext.id bad_ids then true else rest

unfoldable pub has_usage : ℕ → List ℕ → Bool
has_usage u [] = false
has_usage u (v ∷ vs) = (v == u) || has_usage u vs

-- A usage of the certificate is among the accepted ones.
unfoldable pub has_accepted_usage : List ℕ → List ℕ → Bool
unfolding has_usage
has_accepted_usage accepted [] = false
has_accepted_usage accepted (u ∷ us) =
    let rest = has_accepted_usage accepted us in if has_usage u accepted then true else rest

abbrev pub is_none {ℓ} : {A : Type ℓ} → List A → Bool
is_none [] = true
is_none _ = false

abbrev pub time_or : ℤ → Option ℤ → ℤ
time_or now none = now
time_or now (some t) = t

-- The checks of `ValidateChain` on the first certificate.
unfoldable pub check_leaf : CertValidationOpts → ℤ → Certificate → Result (Unit {0})
unfolding has_bad_extension has_accepted_usage
check_leaf opts now cert =
    if is_before_start cert.not_after opts.not_after_start
    then err too_early
    else if is_past_limit cert.not_after opts.not_after_limit
    then err too_late
    else if opts.accept_only_ca && not cert.is_ca
    then err not_ca
    else if opts.reject_expired && ltz cert.not_after now
    then err expired
    else if opts.reject_unexpired && not (ltz cert.not_after now)
    then err unexpired
    else if not (is_none opts.reject_ext_ids)
        && has_bad_extension opts.reject_ext_ids cert.extensions
    then err bad_extension
    else if not (is_none opts.ext_key_usages)
        && not (has_accepted_usage opts.ext_key_usages cert.ext_key_usage)
    then err bad_usage
    else ok tt

-- The certificates of the first chain are those at the start of the second, by their bytes.
unfoldable pub is_prefix : List Certificate → List Certificate → Bool
unfolding text_eq
is_prefix [] verified = true
is_prefix (c ∷ cs) [] = false
is_prefix (c ∷ cs) (v ∷ vs) = text_eq c.raw v.raw && is_prefix cs vs

-- `chainsEquivalent`. After its test on lengths, no index is out of range.
unfoldable pub chains_equivalent : List Certificate → List Certificate → Bool
unfolding is_prefix
chains_equivalent chain verified =
    ((length chain == length verified) || (length chain + 1 == length verified))
    && is_prefix chain verified

-- The loop over the verified chains.
unfoldable pub find_equivalent :
    List Certificate → List (List Certificate) → Result (List Certificate)
unfolding chains_equivalent
find_equivalent chain [] = err not_compliant
find_equivalent chain (verified ∷ others) =
    let rest = find_equivalent chain others in
    if chains_equivalent chain verified then ok verified else rest

abbrev pub first_of : List Certificate → Result Certificate
first_of [] = panic
first_of (c ∷ cs) = ok c

-- The parameter is `x509.ParseCertificate`.
unfoldable pub parse_all : (List ℕ → Parsed) → List (List ℕ) → Result (List Certificate)
parse_all parse_certificate [] = ok []
parse_all parse_certificate (cert_bytes ∷ rest) = elim (parse_certificate cert_bytes) [
  | fatal ↦ err not_parsed
  | parsed cert nonfatal ↦ do certs ← parse_all parse_certificate rest; ok (cert ∷ certs)
]

-- The end of `ValidateChain`. The parameter is `Verify` of a certificate against the log's roots with
-- the other certificates as intermediates, at a time: an error is `none`.
unfoldable pub verify_chain :
    (Certificate → List Certificate → ℤ → Option (List (List Certificate)))
    → Certificate
    → List Certificate
    → ℤ
    → Result (List Certificate)
unfolding find_equivalent
verify_chain verify cert rest now = elim (verify cert rest now) [
  | none ↦ err not_verified
  | some verified ↦ if is_none verified then err no_path else find_equivalent (cert ∷ rest) verified
]

module _ (parse_certificate : List ℕ → Parsed)
    (verify : Certificate → List Certificate → ℤ → Option (List (List Certificate))) where
  -- `ValidateChain`. The first certificate of an empty chain is out of range.
  unfoldable pub validate_chain : CertValidationOpts → ℤ → List (List ℕ) → Result (List Certificate)
  unfolding parse_all check_leaf verify_chain
  validate_chain opts clock raw_chain = do
    chain ← parse_all parse_certificate raw_chain
    elim chain [
      | [] ↦ panic
      | ◌∷◌ cert rest ↦
          check_leaf opts (time_or clock opts.current_time) cert
          >> verify_chain verify cert rest (time_or clock opts.current_time)
    ]

  -- `verifyAddChain`.
  unfoldable pub verify_add_chain :
      CertValidationOpts → ℤ → List (List ℕ) → Bool → Result (List Certificate)
  unfolding validate_chain is_precertificate
  verify_add_chain opts clock chain expecting_precert = do
    valid_path ← validate_chain opts clock chain
    cert ← first_of valid_path
    is_precert ← is_precertificate cert.extensions
    if is_precert
        then if expecting_precert then ok valid_path else err wrong_type
        else if expecting_precert
        then err wrong_type
        else ok valid_path
