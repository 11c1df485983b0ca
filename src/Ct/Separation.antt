-- ===== src/Ct/Separation.antt =====
-- serialization.go: signatures over one structure cannot be taken for signatures over another.
use certificate_transparency.Prelude.{
  ℕ, ◌≡◌, ◌≢◌, ◌<◌, ◌^◌, refl, sym, ap, ◌∙◌, Option, none, some, List, [], ◌∷◌, length, arith,
  Bool-cases, inl, inr, ◌==◌,
}
use certificate_transparency.Prelude.Outcome.{ok, err, >>=-eq-ok}
use certificate_transparency.Tls.Types.{Val}
use certificate_transparency.Tls.Marshal.{marshal}
use certificate_transparency.Tls.Codable.{set_pointer, nil_pointer, IsVal, is_codable}
use certificate_transparency.Tls.Unique.{marshal_params-prefix_free}
use certificate_transparency.Ct.Types.{
  asn1_cert, pre_cert, json_data_entry, certificate_timestamp, TimestampedEntry, MerkleTreeLeaf,
  leaf_entry, Sct, sct_version, sct_timestamp, sct_extensions, SignedTreeHead,
}
use certificate_transparency.Ct.Signed.{
  CtError, Result, serialize_sct_signature_input, serialize_sth_signature_input, sct_input, deref,
  from_tls,
}
use certificate_transparency.Ct.Leaves.{leaf_of}
use certificate_transparency.Ct.Whole.{from_tls-ok}
use certificate_transparency.Ct.Layout.{
  SignedEntry, x509, precert, IsEntry, IsOpaque16, entry_value, sct_layout,
}

-- The second byte of what is signed.
abbrev pub second : List ℕ → Option ℕ
second [] = none
second (a ∷ []) = none
second (a ∷ b ∷ bs) = some b

sct_second :
    (i : Val certificate_timestamp) (bs : List ℕ)
    → i.1.0 ≡ 0
    → i.0 ≡ 0
    → marshal certificate_timestamp i ≡ ok bs
    → second bs ≡ some 0
unfolding marshal
sct_second i bs h0 h1 h = ground (arith)

sct_input-lem :
    (sct : Sct) (e : TimestampedEntry) (i : Val certificate_timestamp)
    → sct_input sct e ≡ ok i
    → (i.0 ≡ sct_version sct) × (i.1.0 ≡ 0)
unfolding sct_input
sct_input-lem sct e i h = ground arith

sct_signed_second :
    (sct : Sct) (leaf : MerkleTreeLeaf) (bs : List ℕ)
    → serialize_sct_signature_input sct leaf ≡ ok bs
    → second bs ≡ some 0
unfolding serialize_sct_signature_input
sct_signed_second sct leaf bs h = elim (Bool-cases (sct_version sct == 0)) [
  | inl v ↦
      let (e, d, h1) = >>=-eq-ok (deref (leaf_entry leaf)) _ (rw v at h) in
      let (i, made, h2) = >>=-eq-ok (sct_input sct e) _ h1 in
      let (version, kind) = sct_input-lem sct e i made in
      let zero_version : sct_version sct ≡ 0 = ground arith in
      sct_second i bs kind (version ∙ zero_version)
        (from_tls-ok (marshal certificate_timestamp i) bs h2)
  | inr not_v ↦ absurd (refused (rw not_v at h))
]
  where
    refused : {e : CtError} → ◌≡◌ {A = Result (List ℕ)} (err e) (ok bs) → ⊥
    refused h' = cc

pub sth_signed_second :
    (sth : SignedTreeHead) (bs : List ℕ)
    → serialize_sth_signature_input sth ≡ ok bs
    → second bs ≡ some 1
unfolding serialize_sth_signature_input marshal
sth_signed_second sth bs h = ground arith

-- The bytes that are signed for an SCT are never those that are signed for an STH, of any log.
pub sct-sth_apart :
    (sct : Sct) (leaf : MerkleTreeLeaf) (sth : SignedTreeHead) (bs : List ℕ)
    → serialize_sct_signature_input sct leaf ≡ ok bs
    → serialize_sth_signature_input sth ≢ ok bs
sct-sth_apart sct leaf sth bs h h' =
    absurd (apart (sym (sct_signed_second sct leaf bs h) ∙ sth_signed_second sth bs h'))
  where
    apart : ◌≡◌ {A = Option ℕ} (some 0) (some 1) → ⊥
    apart e = cc

-- The parts of an entry as RFC 6962 gives them, with their lengths, are values of the Go types.
abbrev pub HasKeyHash : SignedEntry → Type 0
HasKeyHash (x509 cert) = Unit {0}
HasKeyHash (precert key_hash tbs) = length key_hash ≡ 32

abbrev pub IsSigned : Sct → SignedEntry → Type 0
IsSigned sct e =
    (sct_version sct ≡ 0)
    × (sct_timestamp sct < 2 ^ 64)
    × IsOpaque16 (sct_extensions sct)
    × IsEntry e
    × HasKeyHash e

-- The input of a signature as a value, for an entry with the timestamp and the extensions of an SCT.
abbrev signed_value : Sct → SignedEntry → Val certificate_timestamp
signed_value sct e = (0, (0, entry_value (sct_timestamp sct) e (sct_extensions sct)))

entry_value-injective :
    (t t' : ℕ) (e e' : SignedEntry) (x x' : List ℕ)
    → entry_value t e x ≡ entry_value t' e' x'
    → (t ≡ t') × (e ≡ e') × (x ≡ x')
entry_value-injective t t' (x509 c) (x509 c') x x' h = ground arith
entry_value-injective t t' (x509 c) (precert k b) x x' h = ground arith
entry_value-injective t t' (precert k b) (x509 c) x x' h = ground arith
entry_value-injective t t' (precert k b) (precert k' b') x x' h = ground arith

serialize_sct-signed_value :
    (sct : Sct) (e : SignedEntry) (t : ℕ) (x : List ℕ)
    → sct_version sct ≡ 0
    → serialize_sct_signature_input sct (leaf_of (entry_value t e x))
      ≡ from_tls (marshal certificate_timestamp (signed_value sct e))
unfolding serialize_sct_signature_input sct_input
serialize_sct-signed_value (v, s) (x509 c) t x h = rw h refl
serialize_sct-signed_value (v, s) (precert k b) t x h = rw h refl

signed_value-IsVal :
    (sct : Sct) (e : SignedEntry)
    → IsSigned sct e
    → IsVal certificate_timestamp (signed_value sct e)
signed_value-IsVal sct (x509 c) (v, ts, ext, entry, key) = (
  omega arith,
  (
    omega arith,
    (
      ts,
      (
        omega arith,
        (
          set_pointer (IsVal asn1_cert) (c, tt) (entry.2, tt),
          (nil_pointer (IsVal pre_cert), (nil_pointer (IsVal json_data_entry), (ext.1, tt))),
        ),
      ),
    ),
  ),
)
signed_value-IsVal sct (precert k b) (v, ts, ext, entry, key) = (
  omega arith,
  (
    omega arith,
    (
      ts,
      (
        omega arith,
        (
          nil_pointer (IsVal asn1_cert),
          (
            set_pointer (IsVal pre_cert) (k, (b, tt)) ((key, entry.0), (entry.1.2, tt)),
            (nil_pointer (IsVal json_data_entry), (ext.1, tt)),
          ),
        ),
      ),
    ),
  ),
)

-- The same bytes are signed only for the same timestamp, entry and extensions: two SCTs of version 0
-- over certificates or precertificates, in the lengths of the RFC, have different inputs unless
-- these agree. The timestamps are of 64 bits and a key hash has 32 bytes.
pub sct_signed-injective :
    (sct sct' : Sct) (e e' : SignedEntry) (t t' : ℕ) (x x' : List ℕ)
    → IsSigned sct e
    → IsSigned sct' e'
    → serialize_sct_signature_input sct (leaf_of (entry_value t e x))
      ≡ serialize_sct_signature_input sct' (leaf_of (entry_value t' e' x'))
    → (sct_timestamp sct ≡ sct_timestamp sct')
      × (e ≡ e')
      × (sct_extensions sct ≡ sct_extensions sct')
unfolding marshal is_codable
sct_signed-injective sct sct' e e' t t' x x' s s' h =
    let w =
      from_tls-ok (marshal certificate_timestamp (signed_value sct e)) _
        (sym (serialize_sct-signed_value sct e t x s.0) ∙ sct_layout sct t e x s.0 s.3 s.2) in
    let w' = from_tls-ok (marshal certificate_timestamp (signed_value sct' e')) _ (
      sym (serialize_sct-signed_value sct' e' t' x' s'.0)
      ∙ (sym h ∙ sct_layout sct t e x s.0 s.3 s.2)) in
    let (same, _) =
      marshal_params-prefix_free certificate_timestamp (signed_value sct e) (signed_value sct' e')
        [] _ _ [] [] refl (signed_value-IsVal sct e s) (signed_value-IsVal sct' e' s') w w' refl in
    entry_value-injective _ _ e e' _ _ (ap (λ i. i.1.1) same)
