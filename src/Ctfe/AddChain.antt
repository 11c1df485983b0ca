-- ===== src/Ctfe/AddChain.antt =====
-- trillian/ctfe/handlers.go: addChainInternal and the answers with an SCT or a tree head;
-- trillian/util/log_leaf.go: the leaf that is queued.
use certificate_transparency.Prelude.{ℕ, Bool, List, [], ◌∷◌, Option, none, some, if◌then◌else◌}
use certificate_transparency.Prelude.Int.{ℤ, pos}
use certificate_transparency.Prelude.Outcome.{ok, err, panic, ◌>>=◌}
use certificate_transparency.Prelude.Text.{Text}
use certificate_transparency.Tls.Types.{Val}
use certificate_transparency.Tls.Marshal.{marshal}
use certificate_transparency.Ct.Types.{
  asn1_cert, digitally_signed, precert_chain_entry, certificate_chain, signed_certificate_timestamp,
  merkle_tree_leaf, x509_log_entry_type, precert_log_entry_type, MerkleTreeLeaf, Sct, sct_version,
  sct_timestamp, sct_extensions, SignedTreeHead,
}
use certificate_transparency.Ct.X509.{Certificate, X509}
use certificate_transparency.Ct.Signed.{Result, from_tls}
use certificate_transparency.Ct.Leaves.{merkle_tree_leaf_from_chain}
use certificate_transparency.Ct.Entries.{AddChainResponse, GetSthResponse, unmarshal_all}
use certificate_transparency.Ctfe.Backend.{Handled, Rpc, LogLeaf, from_rpc, or_status, or_missing}
use certificate_transparency.Ctfe.Signing.{Signer, get_ct_log_id, build_v1_sct}
use certificate_transparency.Ctfe.Chains.{CertValidationOpts, verify_add_chain}

-- `ExtraDataForChain`.
unfoldable pub extra_data_for_chain : Val asn1_cert → List (Val asn1_cert) → Bool → Result (List ℕ)
extra_data_for_chain cert chain is_precert =
    if is_precert
    then from_tls (marshal precert_chain_entry (cert, (chain, tt)))
    else from_tls (marshal certificate_chain (chain, tt))

-- `BuildLogLeaf`: the leaf, and the hash by which the backend tells duplicates.
unfoldable pub build_log_leaf :
    (List ℕ → List ℕ)
    → MerkleTreeLeaf
    → ℤ
    → Val asn1_cert
    → List (Val asn1_cert)
    → Bool
    → Result (LogLeaf × List ℕ)
unfolding extra_data_for_chain
build_log_leaf sum256 merkle_leaf leaf_index cert chain is_precert = do
  leaf_data ← from_tls (marshal merkle_tree_leaf merkle_leaf)
  extra_data ← extra_data_for_chain cert chain is_precert
  ok (
    record { leaf_index = leaf_index; leaf_value = leaf_data; extra_data = extra_data },
    sum256 cert.0,
  )

-- `extractRawCerts`.
unfoldable pub extract_raw_certs : List Certificate → List (Val asn1_cert)
extract_raw_certs [] = []
extract_raw_certs (c ∷ cs) = (c.raw, tt) ∷ extract_raw_certs cs

-- `buildLogLeafForAddChain`. The first certificate of an empty chain is out of range.
unfoldable pub build_log_leaf_for_add_chain :
    (List ℕ → List ℕ) → MerkleTreeLeaf → List Certificate → Bool → Result (LogLeaf × List ℕ)
unfolding build_log_leaf extract_raw_certs
build_log_leaf_for_add_chain sum256 merkle_leaf chain is_precert = elim (extract_raw_certs chain) [
  | [] ↦ panic
  | ◌∷◌ cert rest ↦ build_log_leaf sum256 merkle_leaf (pos 0) cert rest is_precert
]

-- The answer to a request for an SCT, of `marshalAndWriteAddChainResponse`; the parameter before the
-- SCT is base64 encoding.
unfoldable pub add_chain_response :
    (List ℕ → List ℕ) → Signer → (List ℕ → Text) → Sct → Handled AddChainResponse
unfolding get_ct_log_id
add_chain_response sum256 signer encode_to_string sct = do
  log_id ← or_missing 500 (get_ct_log_id sum256 signer)
  sig ← or_status 500 (marshal digitally_signed sct.1.1.1.1.0)
  ok (record {
    sct_version = sct_version sct;
    id = log_id;
    timestamp = sct_timestamp sct;
    extensions = encode_to_string (sct_extensions sct);
    signature = sig;
  })

-- The answer to a request for a tree head, of `writeSTH`.
unfoldable pub write_sth : SignedTreeHead → Handled GetSthResponse
write_sth sth = do
  sig ← or_status 500 (marshal digitally_signed sth.tree_head_signature)
  ok (record {
    tree_size = sth.tree_size;
    timestamp = sth.timestamp;
    sha256_root_hash = sth.sha256_root_hash;
    tree_head_signature = sig;
  })

-- What a log keeps, and what it calls: the x509 package with its verifier, its signer, base64, and
-- QueueLeaves, which answers with the leaves that were queued or were there, if it answers at all.
pub record LogInfo : Type 0 where
  pub x509 : X509
  pub verify : Certificate → List Certificate → ℤ → Option (List (List Certificate))
  pub validation_opts : CertValidationOpts
  pub signer : Signer
  pub encode_to_string : List ℕ → Text
  pub queue_leaves : LogLeaf × List ℕ → Rpc (Option (List LogLeaf))

abbrev pub entry_type_of : Bool → ℕ
entry_type_of is_precert = if is_precert then precert_log_entry_type else x509_log_entry_type

abbrev pub only_leaf : Option (List LogLeaf) → Handled LogLeaf
only_leaf none = err 500
only_leaf (some []) = err 500
only_leaf (some (l ∷ [])) = ok l
only_leaf (some (l ∷ m ∷ ls)) = err 500

module _ (li : LogInfo) where
  -- `addChainInternal` up to the call of the backend: the leaf for it.
  unfoldable pub queued_leaf : ℤ → ℕ → List (List ℕ) → Bool → Handled (LogLeaf × List ℕ)
  unfolding verify_add_chain merkle_tree_leaf_from_chain build_log_leaf_for_add_chain
  queued_leaf clock time_millis chain is_precert = do
    path ← or_status 400 (
        verify_add_chain li.x509.parse_certificate li.verify li.validation_opts clock chain
          is_precert)
    merkle_leaf ←
        or_status 400
          (merkle_tree_leaf_from_chain li.x509 path (entry_type_of is_precert) time_millis)
    or_status 500 (build_log_leaf_for_add_chain li.x509.sum256 merkle_leaf path is_precert)

  -- The rest of it: an SCT for the leaf that the backend returns.
  unfoldable pub answered_leaf : ℕ → LogLeaf → Handled AddChainResponse
  unfolding build_v1_sct add_chain_response
  answered_leaf call leaf = do
    logged ← or_status 500 (unmarshal_all merkle_tree_leaf leaf.leaf_value)
    sct ← or_status 500 (build_v1_sct li.x509.sum256 li.signer call logged)
    sct_bytes ← or_status 500 (marshal signed_certificate_timestamp sct)
    add_chain_response li.x509.sum256 li.signer li.encode_to_string sct

  -- `addChainInternal`, on the chain of the request; an empty one is refused where the body is
  -- parsed. The clock is read as an instant and in milliseconds.
  unfoldable pub add_chain_internal : ℤ → ℕ → ℕ → List (List ℕ) → Bool → Handled AddChainResponse
  unfolding queued_leaf answered_leaf
  add_chain_internal clock time_millis call [] is_precert = err 400
  add_chain_internal clock time_millis call (first ∷ rest) is_precert = do
    leaf ← queued_leaf clock time_millis (first ∷ rest) is_precert
    rsp ← from_rpc (li.queue_leaves leaf)
    queued ← only_leaf rsp
    answered_leaf call queued
