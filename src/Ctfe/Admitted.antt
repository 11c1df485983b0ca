-- ===== src/Ctfe/Admitted.antt =====
-- trillian/ctfe/cert_checker.go: what holds of a chain that a log accepts.
use mathlib.Core.Path.{ap₂}
use certificate_transparency.Prelude.{
  ℕ, ◌+◌, ◌≡◌, ◌⊎◌, inl, inr, refl, ap, subst, ◌∙◌, Bool, true, false, List, [], ◌∷◌, Option, some,
  Option-cases, Bool-cases, &&_split, length, take, if◌then◌else◌, arith,
}
use certificate_transparency.Prelude.Int.{ℤ}
use certificate_transparency.Prelude.Outcome.{ok, err, panic, ◌>>◌, >>=-eq-ok, ok_inj, err-ne_ok}
use certificate_transparency.Prelude.Text.{text_eq}
use certificate_transparency.Submission.Keys.{text_eq→eq}
use certificate_transparency.Ct.X509.{Certificate, Parsed}
use certificate_transparency.Ctfe.Chains.{
  CertValidationOpts, is_none, time_or, check_leaf, is_prefix, chains_equivalent, find_equivalent,
  parse_all, verify_chain, validate_chain, is_precertificate, verify_add_chain, first_of,
  wrong_type,
}
use certificate_transparency.Ctfe.Allowed.{IsAllowed, check_leaf-IsAllowed}

-- A chain among others.
abbrev pub IsIn : List Certificate → List (List Certificate) → Type 0
IsIn chain [] = ⊥
IsIn chain (c ∷ cs) = (c ≡ chain) ⊎ IsIn chain cs

abbrev pub raws : List Certificate → List (List ℕ)
raws [] = []
raws (c ∷ cs) = c.raw ∷ raws cs

is_prefix-take :
    (chain verified : List Certificate)
    → is_prefix chain verified ≡ true
    → raws chain ≡ take (length chain) (raws verified)
unfolding is_prefix
is_prefix-take [] verified h = refl
is_prefix-take (c ∷ cs) [] h = cc
is_prefix-take (c ∷ cs) (v ∷ vs) h =
    let (first, rest) = &&_split (text_eq c.raw v.raw) (is_prefix cs vs) h in
    ap₂ ◌∷◌ (text_eq→eq c.raw v.raw first) (is_prefix-take cs vs rest)

-- The path has the certificates of the chain, in order, and at most one more, its root.
abbrev pub IsPathOf : List Certificate → List Certificate → Type 0
IsPathOf chain path =
    (raws chain ≡ take (length chain) (raws path))
    × ((length path ≡ length chain) ⊎ (length path ≡ length chain + 1))

chains_equivalent-IsPathOf :
    (chain path : List Certificate) → chains_equivalent chain path ≡ true → IsPathOf chain path
unfolding chains_equivalent
chains_equivalent-IsPathOf chain path h =
    let (long, same) = &&_split _ (is_prefix chain path) h in
    (is_prefix-take chain path same, ground arith)

find_equivalent-eq-ok :
    (chain path : List Certificate) (verified : List (List Certificate))
    → find_equivalent chain verified ≡ ok path
    → IsIn path verified × IsPathOf chain path
unfolding find_equivalent
find_equivalent-eq-ok chain path [] h = absurd (err-ne_ok h)
find_equivalent-eq-ok chain path (v ∷ vs) h = elim (Bool-cases (chains_equivalent chain v)) [
  | inl yes_it_is ↦
      let same : v ≡ path = ok_inj (rw yes_it_is at h) in
      (inl same, subst (IsPathOf chain) same (chains_equivalent-IsPathOf chain v yes_it_is))
  | inr other ↦
      let (found, path_of) = find_equivalent-eq-ok chain path vs (rw other at h) in
      (inr found, path_of)
]

module _ (parse_certificate : List ℕ → Parsed)
    (verify : Certificate → List Certificate → ℤ → Option (List (List Certificate))) where
  -- What a log accepts a chain for.
  pub record IsAdmitted (opts : CertValidationOpts) (clock : ℤ) (raw_chain : List (List ℕ))
      (path : List Certificate) : Type 0 where
    pub cert : Certificate
    pub rest : List Certificate
    pub verified : List (List Certificate)
    pub is_parsed : parse_all parse_certificate raw_chain ≡ ok (cert ∷ rest)
    pub is_allowed : IsAllowed opts (time_or clock opts.current_time) cert
    pub is_verified : verify cert rest (time_or clock opts.current_time) ≡ some verified
    pub is_in : IsIn path verified
    pub is_path : IsPathOf (cert ∷ rest) path

  verify_chain-eq-ok :
      (cert : Certificate) (rest : List Certificate) (now : ℤ) (path : List Certificate)
      → verify_chain verify cert rest now ≡ ok path
      → (verified : List (List Certificate)) × (verify cert rest now ≡ some verified)
        × IsIn path verified
        × IsPathOf (cert ∷ rest) path
  unfolding verify_chain
  verify_chain-eq-ok cert rest now path h = elim (Option-cases (verify cert rest now)) [
    | inl failed ↦ absurd (err-ne_ok (rw (failed, verify_chain) at h))
    | inr (verified, found) ↦ elim (Bool-cases (is_none verified)) [
      | inl nothing ↦ absurd (err-ne_ok (rw (found, verify_chain, nothing) at h))
      | inr something ↦
          let (member, path_of) =
            find_equivalent-eq-ok (cert ∷ rest) path verified
              (rw (found, verify_chain, something) at h) in
          (verified, found, member, path_of)
    ]
  ]

  validate_chain-IsAdmitted :
      (opts : CertValidationOpts) (clock : ℤ) (raw_chain : List (List ℕ)) (path : List Certificate)
      → validate_chain parse_certificate verify opts clock raw_chain ≡ ok path
      → IsAdmitted opts clock raw_chain path
  unfolding validate_chain
  validate_chain-IsAdmitted opts clock raw_chain path h =
      let (chain, is_chain, h1) = >>=-eq-ok (parse_all parse_certificate raw_chain) _ h in
      go chain is_chain h1
    where
      go :
          (chain : List Certificate)
          → parse_all parse_certificate raw_chain ≡ ok chain
          → (elim chain [
            | [] ↦ panic
            | ◌∷◌ cert rest ↦
                check_leaf opts (time_or clock opts.current_time) cert
                >> verify_chain verify cert rest (time_or clock opts.current_time)
          ])
            ≡ ok path
          → IsAdmitted opts clock raw_chain path
      go [] is_chain e = cc
      go (cert ∷ rest) is_chain e =
          let now = time_or clock opts.current_time in
          let (unit, checked, e1) = >>=-eq-ok (check_leaf opts now cert) _ e in
          let (verified, found, member, path_of) = verify_chain-eq-ok cert rest now path e1 in
          record {
            cert = cert;
            rest = rest;
            verified = verified;
            is_parsed = is_chain;
            is_allowed = check_leaf-IsAllowed opts now cert checked;
            is_verified = found;
            is_in = member;
            is_path = path_of;
          }

  -- The chains that a log accepts: the chain parses, its first certificate passes the options, and
  -- what is returned is a path to a root that the verifier found, which has the certificates of the
  -- chain in order, by their bytes, and at most one more, the root; the first certificate of the path
  -- has a right poison extension exactly where a precertificate is expected.
  pub verify_add_chain-IsAdmitted :
      (opts : CertValidationOpts) (clock : ℤ) (raw_chain : List (List ℕ)) (expecting_precert : Bool)
      (path : List Certificate)
      → verify_add_chain parse_certificate verify opts clock raw_chain expecting_precert ≡ ok path
      → IsAdmitted opts clock raw_chain path
        × ((first : Certificate) × (first_of path ≡ ok first)
            × (is_precertificate first.extensions ≡ ok expecting_precert))
  unfolding verify_add_chain
  verify_add_chain-IsAdmitted opts clock raw_chain expecting path h =
      let (valid, is_valid, h1) =
        >>=-eq-ok (validate_chain parse_certificate verify opts clock raw_chain) _ h in
      let (first, is_first, h2) = >>=-eq-ok (first_of valid) _ h1 in
      let (is_precert, is_tested, h3) = >>=-eq-ok (is_precertificate first.extensions) _ h2 in
      let (same, kind) = matched is_precert expecting valid h3 in
      (
        subst (IsAdmitted opts clock raw_chain) same
            (validate_chain-IsAdmitted opts clock raw_chain valid is_valid),
        (
          first,
          subst (λ (p : List Certificate). first_of p ≡ ok first) same is_first,
          is_tested ∙ ap ok kind,
        ),
      )
    where
      matched :
          (a b : Bool) (valid : List Certificate)
          → (if a
              then if b then ok valid else err wrong_type
              else if b
              then err wrong_type
              else ok valid)
            ≡ ok path
          → (valid ≡ path) × (a ≡ b)
      matched true true valid e = (ok_inj e, refl)
      matched true false valid e = absurd (err-ne_ok e)
      matched false true valid e = absurd (err-ne_ok e)
      matched false false valid e = (ok_inj e, refl)
