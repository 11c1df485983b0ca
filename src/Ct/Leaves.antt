-- ===== src/Ct/Leaves.antt =====
-- serialization.go: the leaves of the log's tree, from certificate chains, and their hashes.
use certificate_transparency.Prelude.{
  ℕ, zero, suc, Bool, false, Option, none, some, List, [], ◌∷◌, ◌==◌, ◌||◌, if◌then◌else◌, not,
}
use certificate_transparency.Prelude.Outcome.{ok, err, panic, ◌>>=◌}
use certificate_transparency.Tls.Types.{Val}
use certificate_transparency.Tls.Marshal.{marshal}
use certificate_transparency.Ct.Types.{
  asn1_cert, pre_cert, merkle_tree_leaf, x509_log_entry_type, precert_log_entry_type,
  timestamped_entry_leaf_type, v1, tree_leaf_prefix, TimestampedEntry, MerkleTreeLeaf,
}
use certificate_transparency.Ct.X509.{
  Certificate, Parsed, fatal, parsed, X509, certificate_transparency_usage,
}
use certificate_transparency.Ct.Signed.{
  Result, from_tls, unknown_entry_type, no_issuer, no_issuer_of_pre_issuer, poison_not_removed,
  sct_list_not_removed, bad_certificate,
}

abbrev pub leaf_of : TimestampedEntry → MerkleTreeLeaf
leaf_of e = (v1, (timestamped_entry_leaf_type, (some e, tt)))

abbrev pub entry_of : ℕ → ℕ → Option (Val asn1_cert) → Option (Val pre_cert) → TimestampedEntry
entry_of timestamp etype x p = (timestamp, (etype, (x, (p, (none, ([], tt))))))

-- `CreateX509MerkleTreeLeaf`.
unfoldable pub create_x509_merkle_tree_leaf : Val asn1_cert → ℕ → MerkleTreeLeaf
create_x509_merkle_tree_leaf cert timestamp =
    leaf_of (entry_of timestamp x509_log_entry_type (some cert) none)

has_usage : List ℕ → Bool
has_usage [] = false
has_usage (u ∷ us) = (u == certificate_transparency_usage) || has_usage us

-- `IsPreIssuer`.
unfoldable pub is_pre_issuer : Certificate → Bool
unfolding has_usage
is_pre_issuer issuer = has_usage issuer.ext_key_usage

-- `chain[0].Raw`, a fault where the chain is empty.
abbrev pub first_raw : List Certificate → Result (List ℕ)
first_raw [] = panic
first_raw (cert ∷ _) = ok cert.raw

-- The certificate whose key is hashed for a precertificate, and the pre-issuer if there is one.
unfoldable pub final_issuer :
    Certificate → List Certificate → Result (Certificate × Option Certificate)
unfolding is_pre_issuer
final_issuer issuer rest =
    if is_pre_issuer issuer
    then (elim rest [ [] ↦ err no_issuer_of_pre_issuer | next ∷ _ ↦ ok (next, some issuer) ])
    else ok (issuer, none)

abbrev pub or_error {ℓ} : {A : Type ℓ} → Result A → Option A → Result A
or_error e none = e
or_error e (some a) = ok a

module _ (x : X509) where
  unfoldable pub precert_leaf : List Certificate → ℕ → Result MerkleTreeLeaf
  unfolding final_issuer
  precert_leaf [] timestamp = err no_issuer
  precert_leaf (cert ∷ []) timestamp = err no_issuer
  precert_leaf (cert ∷ issuer ∷ rest) timestamp = do
    (final, pre_issuer) ← final_issuer issuer rest
    tbs ←
        or_error (err poison_not_removed) (x.build_precert_tbs cert.raw_tbs_certificate pre_issuer)
    ok (
        leaf_of (
          entry_of timestamp precert_log_entry_type none
            (some (x.sum256 final.raw_subject_public_key_info, (tbs, tt)))))

  -- `MerkleTreeLeafFromChain`.
  unfoldable pub merkle_tree_leaf_from_chain : List Certificate → ℕ → ℕ → Result MerkleTreeLeaf
  unfolding precert_leaf
  merkle_tree_leaf_from_chain chain etype timestamp =
      if etype == x509_log_entry_type
      then (do raw ← first_raw chain; ok (leaf_of (entry_of timestamp etype (some (raw, tt)) none)))
      else if not (etype == precert_log_entry_type)
      then err unknown_entry_type
      else precert_leaf chain timestamp

  abbrev pub usable : Parsed → Result Certificate
  usable fatal = err bad_certificate
  usable (parsed cert _) = ok cert

  -- The first `count` certificates of a chain, parsed.
  unfoldable pub parse_chain : ℕ → List (Val asn1_cert) → Result (List Certificate)
  parse_chain zero raw_chain = ok []
  parse_chain (suc count) [] = ok []
  parse_chain (suc count) (raw ∷ raw_chain) = do
    cert ← usable (x.parse_certificate raw.0)
    chain ← parse_chain count raw_chain
    ok (cert ∷ chain)

  -- `MerkleTreeLeafFromRawChain`.
  unfoldable pub merkle_tree_leaf_from_raw_chain :
      List (Val asn1_cert) → ℕ → ℕ → Result MerkleTreeLeaf
  unfolding parse_chain merkle_tree_leaf_from_chain
  merkle_tree_leaf_from_raw_chain raw_chain etype timestamp = do
    chain ← parse_chain 3 raw_chain
    merkle_tree_leaf_from_chain chain etype timestamp

  -- `MerkleTreeLeafForEmbeddedSCT`.
  unfoldable pub merkle_tree_leaf_for_embedded_sct : List Certificate → ℕ → Result MerkleTreeLeaf
  merkle_tree_leaf_for_embedded_sct [] timestamp = err no_issuer
  merkle_tree_leaf_for_embedded_sct (cert ∷ []) timestamp = err no_issuer
  merkle_tree_leaf_for_embedded_sct (cert ∷ issuer ∷ rest) timestamp = do
    tbs ← or_error (err sct_list_not_removed) (x.remove_sct_list cert.raw_tbs_certificate)
    ok (
        leaf_of (
          entry_of timestamp precert_log_entry_type none
            (some (x.sum256 issuer.raw_subject_public_key_info, (tbs, tt)))))

  -- `LeafHashForLeaf`.
  unfoldable pub leaf_hash_for_leaf : MerkleTreeLeaf → Result (List ℕ)
  leaf_hash_for_leaf leaf = do
    leaf_data ← from_tls (marshal merkle_tree_leaf leaf)
    ok (x.sum256 (tree_leaf_prefix ∷ leaf_data))
