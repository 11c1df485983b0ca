-- ===== src/Ct/Entries.antt =====
-- serialization.go and types.go: what a log's answers hold, parsed.
use certificate_transparency.Prelude.{
  ℕ, Bool, Option, none, some, List, [], ◌∷◌, ◌==◌, if◌then◌else◌, not, length,
}
use certificate_transparency.Prelude.Bytes.{be_bytes}
use certificate_transparency.Prelude.Int.{ℤ}
use certificate_transparency.Prelude.Text.{Text}
use certificate_transparency.Prelude.Outcome.{ok, err, ◌>>=◌}
use certificate_transparency.Tls.Types.{GoType, Val}
use certificate_transparency.Tls.Parse.{unmarshal}
use certificate_transparency.Ct.Types.{
  asn1_cert, digitally_signed, precert_chain_entry, certificate_chain, merkle_tree_leaf,
  x509_log_entry_type, precert_log_entry_type, v1, TimestampedEntry, entry_type, x509_entry,
  precert_entry, MerkleTreeLeaf, leaf_entry, Sct, SignedTreeHead,
}
use certificate_transparency.Ct.X509.{Certificate, fatal, parsed, X509}
use certificate_transparency.Ct.Signed.{
  Result, from_tls, deref, unknown_entry_type, invalid_hash_length, invalid_id_length,
  invalid_extensions, trailing_data, bad_certificate, bad_precertificate,
}

pub record LeafEntry : Type 0 where
  pub leaf_input : List ℕ
  pub extra_data : List ℕ

pub record RawLogEntry : Type 0 where
  pub index : ℤ
  pub leaf : MerkleTreeLeaf
  pub cert : Val asn1_cert
  pub chain : List (Val asn1_cert)

pub record Precertificate : Type 0 where
  pub submitted : Val asn1_cert
  pub issuer_key_hash : List ℕ
  pub tbs_certificate : Certificate

pub record LogEntry : Type 0 where
  pub index : ℤ
  pub leaf : MerkleTreeLeaf
  pub x509_cert : Option Certificate
  pub precert : Option Precertificate
  pub chain : List (Val asn1_cert)

-- `len(rest) > 0` is an error.
abbrev pub whole : {A : Type 0} → A × List ℕ → Result A
whole (v, []) = ok v
whole (v, _ ∷ _) = err trailing_data

unfoldable pub unmarshal_all : (t : GoType) → List ℕ → Result (Val t)
unmarshal_all t b = do r ← from_tls (unmarshal t b); whole r

unfoldable pub with_chain : ℤ → MerkleTreeLeaf → TimestampedEntry → List ℕ → Result RawLogEntry
unfolding unmarshal_all
with_chain index leaf e extra_data =
    if entry_type e == x509_log_entry_type
    then (do
      cert_chain ← unmarshal_all certificate_chain extra_data
      cert ← deref (x509_entry e)
      ok (record { index = index; leaf = leaf; cert = cert; chain = cert_chain.0 }))
    else if entry_type e == precert_log_entry_type
    then (do
      precert_chain ← unmarshal_all precert_chain_entry extra_data
      ok (record { index = index; leaf = leaf; cert = precert_chain.0; chain = precert_chain.1.0 }))
    else err unknown_entry_type

-- `RawLogEntryFromLeaf`.
unfoldable pub raw_log_entry_from_leaf : ℤ → LeafEntry → Result RawLogEntry
unfolding with_chain
raw_log_entry_from_leaf index entry = do
  leaf ← unmarshal_all merkle_tree_leaf entry.leaf_input
  e ← deref (leaf_entry leaf)
  with_chain index leaf e entry.extra_data

-- `ToLogEntry`: the entry, and whether a non-fatal error comes with it.
module _ (x : X509) where
  unfoldable pub x509_log_entry : RawLogEntry → Val asn1_cert → Result (LogEntry × Bool)
  x509_log_entry rle cert = elim (x.parse_certificate cert.0) [
    | fatal ↦ err bad_certificate
    | parsed c nonfatal ↦ ok (
      record {
        index = rle.index;
        leaf = rle.leaf;
        x509_cert = some c;
        precert = none;
        chain = rle.chain;
      },
      nonfatal,
    )
  ]

  unfoldable pub precert_log_entry : RawLogEntry → TimestampedEntry → Result (LogEntry × Bool)
  precert_log_entry rle e = do
    p ← deref (precert_entry e)
    elim (x.parse_tbs_certificate p.1.0) [
      | fatal ↦ err bad_precertificate
      | parsed c nonfatal ↦ ok (
        record {
          index = rle.index;
          leaf = rle.leaf;
          x509_cert = none;
          precert =
              some (record { submitted = rle.cert; issuer_key_hash = p.0; tbs_certificate = c });
          chain = rle.chain;
        },
        nonfatal,
      )
    ]

  unfoldable pub typed_log_entry : RawLogEntry → TimestampedEntry → Result (LogEntry × Bool)
  unfolding x509_log_entry precert_log_entry
  typed_log_entry rle e =
      if entry_type e == x509_log_entry_type
      then (do cert ← deref (x509_entry e); x509_log_entry rle cert)
      else if entry_type e == precert_log_entry_type
      then precert_log_entry rle e
      else err unknown_entry_type

  unfoldable pub to_log_entry : RawLogEntry → Result (LogEntry × Bool)
  unfolding typed_log_entry
  to_log_entry rle = do e ← deref (leaf_entry rle.leaf); typed_log_entry rle e

  -- `LogEntryFromLeaf`.
  unfoldable pub log_entry_from_leaf : ℤ → LeafEntry → Result (LogEntry × Bool)
  unfolding raw_log_entry_from_leaf to_log_entry
  log_entry_from_leaf index leaf = do rle ← raw_log_entry_from_leaf index leaf; to_log_entry rle

pub record AddChainResponse : Type 0 where
  pub sct_version : ℕ
  pub id : List ℕ
  pub timestamp : ℕ
  pub extensions : Text
  pub signature : List ℕ

-- `ToSignedCertificateTimestamp`. base64's DecodeString is a parameter.
unfoldable pub to_signed_certificate_timestamp :
    (Text → Option (List ℕ)) → AddChainResponse → Result Sct
unfolding unmarshal_all
to_signed_certificate_timestamp decode r =
    if not (length r.id == 32) then err invalid_id_length else (elim (decode r.extensions) [
      | none ↦ err invalid_extensions
      | some exts ↦ do
        ds ← unmarshal_all digitally_signed r.signature
        ok (r.sct_version, ((r.id, tt), (r.timestamp, (exts, (ds, tt)))))
    ])

pub record GetSthResponse : Type 0 where
  pub tree_size : ℕ
  pub timestamp : ℕ
  pub sha256_root_hash : List ℕ
  pub tree_head_signature : List ℕ

-- `ToSignedTreeHead`. Version and LogID are left as their zero values.
unfoldable pub to_signed_tree_head : GetSthResponse → Result SignedTreeHead
unfolding unmarshal_all
to_signed_tree_head r =
    if not (length r.sha256_root_hash == 32) then err invalid_hash_length else (do
      ds ← unmarshal_all digitally_signed r.tree_head_signature
      ok (record {
        version = v1;
        tree_size = r.tree_size;
        timestamp = r.timestamp;
        sha256_root_hash = r.sha256_root_hash;
        tree_head_signature = ds;
        log_id = be_bytes 32 0;
      }))
