-- ===== src/Ct/Responses.antt =====
-- types.go: what ToSignedCertificateTimestamp and ToSignedTreeHead make of a log's answer.
use certificate_transparency.Prelude.{
  ℕ, ◌≡◌, ◌==◌, refl, sym, ap, ◌∙◌, Option, some, Option-cases, List, All, length, Bool-cases, inl,
  inr, arith,
}
use certificate_transparency.Prelude.Bytes.{IsByte}
use certificate_transparency.Prelude.Text.{Text}
use certificate_transparency.Prelude.Outcome.{ok, err, >>=-eq-ok, ok_inj}
use certificate_transparency.Tls.Marshal.{marshal}
use certificate_transparency.Tls.Codable.{is_codable}
use certificate_transparency.Ct.Types.{
  digitally_signed, Sct, SignedTreeHead, sct_version, sct_timestamp, sct_extensions,
}
use certificate_transparency.Ct.Signed.{Result, CtError}
use certificate_transparency.Ct.Entries.{
  AddChainResponse, GetSthResponse, unmarshal_all, to_signed_certificate_timestamp,
  to_signed_tree_head,
}
use certificate_transparency.Ct.Whole.{marshal-unmarshal_all}

-- The answer that holds an SCT, where `decode` reads the text of its extensions.
abbrev pub IsAnswerOf : (Text → Option (List ℕ)) → AddChainResponse → Sct → Type 0
IsAnswerOf decode r sct =
    (length r.id ≡ 32)
    × (sct.1.0.0 ≡ r.id)
    × (sct_version sct ≡ r.sct_version)
    × (sct_timestamp sct ≡ r.timestamp)
    × (decode r.extensions ≡ some (sct_extensions sct))
    × (marshal digitally_signed sct.1.1.1.1.0 ≡ ok r.signature)

-- An answer that ToSignedCertificateTimestamp accepts holds the SCT that it returns: its log ID of 32
-- bytes, its version, timestamp and extensions, and the very encoding of its signature.
pub to_signed_certificate_timestamp-IsAnswerOf :
    (decode : Text → Option (List ℕ)) (r : AddChainResponse) (sct : Sct)
    → All IsByte r.signature
    → to_signed_certificate_timestamp decode r ≡ ok sct
    → IsAnswerOf decode r sct
unfolding to_signed_certificate_timestamp is_codable
to_signed_certificate_timestamp-IsAnswerOf decode r sct small h =
    elim (Bool-cases (length r.id == 32)) [
      | inr short ↦ absurd (refused (rw short at h))
      | inl long ↦ elim (Option-cases (decode r.extensions)) [
        | inl bad ↦ absurd (refused (rw (long, bad) at h))
        | inr (exts, good) ↦
            let (ds, read, same) =
              >>=-eq-ok (unmarshal_all digitally_signed r.signature) _ (rw (long, good) at h) in
            let value : ◌≡◌ {A = Sct} (r.sct_version, ((r.id, tt), (r.timestamp, (exts, (ds, tt)))))
                sct =
              ok_inj same in
            let written =
              (marshal-unmarshal_all digitally_signed r.signature ds refl small read).1 in
            (
              ground arith,
              ap (λ (s : Sct). s.1.0.0) (sym value),
              ap sct_version (sym value),
              ap sct_timestamp (sym value),
              good ∙ ap (λ (s : Sct). some (sct_extensions s)) value,
              ap (λ (s : Sct). marshal digitally_signed s.1.1.1.1.0) (sym value) ∙ written,
            )
      ]
    ]
  where
    refused : {e : CtError} → ◌≡◌ {A = Result Sct} (err e) (ok sct) → ⊥
    refused h' = cc

-- An answer that ToSignedTreeHead accepts holds the tree head that it returns: its size, timestamp
-- and root hash of 32 bytes, and the very encoding of its signature.
pub to_signed_tree_head_lem :
    (r : GetSthResponse) (sth : SignedTreeHead)
    → All IsByte r.tree_head_signature
    → to_signed_tree_head r ≡ ok sth
    → (length sth.sha256_root_hash ≡ 32)
      × (sth.sha256_root_hash ≡ r.sha256_root_hash)
      × (sth.version ≡ 0)
      × (sth.timestamp ≡ r.timestamp)
      × (sth.tree_size ≡ r.tree_size)
      × (marshal digitally_signed sth.tree_head_signature ≡ ok r.tree_head_signature)
unfolding to_signed_tree_head is_codable
to_signed_tree_head_lem r sth small h = elim (Bool-cases (length r.sha256_root_hash == 32)) [
  | inr short ↦ absurd (refused (rw short at h))
  | inl long ↦
      let size : length r.sha256_root_hash ≡ 32 = ground arith in
      let (ds, read, same) =
        >>=-eq-ok (unmarshal_all digitally_signed r.tree_head_signature) _ (rw long at h) in
      let written =
        (marshal-unmarshal_all digitally_signed r.tree_head_signature ds refl small read).1 in
      (
        ap (λ (z : SignedTreeHead). length z.sha256_root_hash) (sym (ok_inj same)) ∙ size,
        ap (λ (z : SignedTreeHead). z.sha256_root_hash) (sym (ok_inj same)),
        ap (λ (z : SignedTreeHead). z.version) (sym (ok_inj same)),
        ap (λ (z : SignedTreeHead). z.timestamp) (sym (ok_inj same)),
        ap (λ (z : SignedTreeHead). z.tree_size) (sym (ok_inj same)),
        ap (λ (z : SignedTreeHead). marshal digitally_signed z.tree_head_signature)
              (sym (ok_inj same))
            ∙ written,
      )
]
  where
    refused : {e : CtError} → ◌≡◌ {A = Result SignedTreeHead} (err e) (ok sth) → ⊥
    refused h' = cc
