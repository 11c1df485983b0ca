-- ===== src/Ctfe/Served.antt =====
-- trillian/ctfe/serialize.go and sth.go: what the signatures that a log gives are over.
use certificate_transparency.Prelude.{
  ℕ, ◌≡◌, ◌≢◌, ◌⊎◌, inl, inr, refl, ap, subst, sym, ◌∙◌, List, [], Option, none, some, Option-cases,
  Bool-cases, some_inj,
}
use certificate_transparency.Prelude.Outcome.{Outcome, ok, err, panic, diverge, >>=-eq-ok, ok_inj}
use certificate_transparency.Prelude.Text.{text_eq}
use certificate_transparency.Submission.Keys.{text_eq→eq}
use certificate_transparency.Tls.Types.{Val}
use certificate_transparency.Ct.Types.{digitally_signed, SignedTreeHead}
use certificate_transparency.Ct.Signed.{CtError, serialize_sth_signature_input}
use certificate_transparency.Ct.Separation.{second, sth_signed_second}
use certificate_transparency.Ctfe.Signing.{
  Signer, SignatureCache, signature_value, serialized, or_error, get_signature, sign_bytes,
  sign_serialized, sign_v1_tree_head, not_signed,
}

pub serialized-ok : {A : Type 0} (o : Outcome CtError A) (a : A) → serialized o ≡ ok a → o ≡ ok a
serialized-ok (ok b) a h = ap ok (ok_inj h)
serialized-ok (err e) a h = cc
serialized-ok panic a h = cc
serialized-ok diverge a h = cc

module _ (sum256 : List ℕ → List ℕ) (signer : Signer) where
  -- The signature is one that the signer makes of the hash of the bytes.
  abbrev pub IsSignatureOf : List ℕ → Val digitally_signed → Type 0
  IsSignatureOf input sig =
      (call : ℕ) × (s : List ℕ) × (signer.sign call (sum256 input) ≡ some s)
      × (sig ≡ signature_value signer s)

  -- The cache is empty, or it has a signature of its bytes.
  abbrev pub IsFaithful : SignatureCache → Type 0
  IsFaithful cache = (cache.input ≡ []) ⊎ IsSignatureOf cache.input cache.sig

  pub sign_bytes-IsSignatureOf :
      (call : ℕ) (input : List ℕ) (sig : Val digitally_signed)
      → sign_bytes sum256 signer call input ≡ ok sig
      → IsSignatureOf input sig
  sign_bytes-IsSignatureOf call input sig h =
      let (s, signed, same) =
        >>=-eq-ok (or_error not_signed (signer.sign call (sum256 input))) _ h in
      (call, s, from_option (signer.sign call (sum256 input)) s signed, sym (ok_inj same))
    where
      from_option : (o : Option (List ℕ)) (s : List ℕ) → or_error not_signed o ≡ ok s → o ≡ some s
      from_option none s e = cc
      from_option (some t) s e = ap some (ok_inj e)

  get_signature-some :
      (cache : SignatureCache) (input : List ℕ) (sig : Val digitally_signed)
      → get_signature cache input ≡ some sig
      → (input ≡ cache.input) × (sig ≡ cache.sig)
  unfolding get_signature
  get_signature-some cache input sig h = elim (Bool-cases (text_eq input cache.input)) [
    | inl same ↦ (text_eq→eq input cache.input same, sym (some_inj (rw same at h)))
    | inr apart ↦ absurd (none-ne_some (rw apart at h))
  ]
    where
      none-ne_some : {x : Val digitally_signed} → none ≡ some x → ⊥
      none-ne_some e = cc

  -- What a call that signs a tree head leads to.
  pub record IsHead (sth : SignedTreeHead) (sth_bytes : List ℕ)
      (r : SignedTreeHead × SignatureCache) : Type 0 where
    pub sig : Val digitally_signed
    pub is_head : r.0 ≡ record sth { tree_head_signature = sig }
    pub is_signature : IsSignatureOf sth_bytes sig
    pub is_faithful : IsFaithful r.1

  sign_serialized-IsHead :
      (call : ℕ) (sth : SignedTreeHead) (sth_bytes : List ℕ) (cache : SignatureCache)
      (r : SignedTreeHead × SignatureCache)
      → sth_bytes ≢ []
      → IsFaithful cache
      → sign_serialized sum256 signer call sth sth_bytes cache ≡ ok r
      → IsHead sth sth_bytes r
  unfolding sign_serialized
  sign_serialized-IsHead call sth sth_bytes cache r filled faithful h =
      elim (Option-cases (get_signature cache sth_bytes)) [
        | inr (sig, cached) ↦
            let (same, is_sig) = get_signature-some cache sth_bytes sig cached in
            subst (IsHead sth sth_bytes) (ok_inj (rw (cached, sign_serialized) at h)) (record {
              sig = sig;
              is_head = refl;
              is_signature = elim faithful [
                | inl empty ↦ absurd (filled (same ∙ empty))
                | inr signed ↦ rw (same, is_sig) signed
              ];
              is_faithful = faithful;
            })
        | inl absent ↦
            let (sig, signed, made) =
              >>=-eq-ok (sign_bytes sum256 signer call sth_bytes) _
                (rw (absent, sign_serialized) at h) in
            subst (IsHead sth sth_bytes) (ok_inj made) (record {
              sig = sig;
              is_head = refl;
              is_signature = sign_bytes-IsSignatureOf call sth_bytes sig signed;
              is_faithful = inr (sign_bytes-IsSignatureOf call sth_bytes sig signed);
            })
      ]

  pub sign_v1_tree_head-IsHead :
      (call : ℕ) (sth : SignedTreeHead) (cache : SignatureCache)
      (r : SignedTreeHead × SignatureCache)
      → IsFaithful cache
      → sign_v1_tree_head sum256 signer call sth cache ≡ ok r
      → (sth_bytes : List ℕ) × (serialize_sth_signature_input sth ≡ ok sth_bytes)
        × IsHead sth sth_bytes r
  unfolding sign_v1_tree_head
  sign_v1_tree_head-IsHead call sth cache r faithful h =
      let (sth_bytes, made, h1) = >>=-eq-ok (serialized (serialize_sth_signature_input sth)) _ h in
      let is_bytes = serialized-ok (serialize_sth_signature_input sth) sth_bytes made in
      (
        sth_bytes,
        is_bytes,
        sign_serialized-IsHead call sth sth_bytes cache r
            (λ e. empty_second (sym (ap second e) ∙ sth_signed_second sth sth_bytes is_bytes))
            faithful h1,
      )
    where
      empty_second : {n : ℕ} → none ≡ some n → ⊥
      empty_second e = cc
