-- ===== src/Ct/Types.antt =====
-- types.go and tls/types.go: the RFC 6962 structures as Go types with their `tls` tags.
-- The values are those of the TLS model; constructors and fields are given names here.
use certificate_transparency.Prelude.{ℕ, Option, List, []}
use certificate_transparency.Prelude.Text.{codes}
use certificate_transparency.Tls.Types.{
  GoType, uint64, enum, byte_array, bytes, slice, struct, done, field, pointer, Val,
}

abbrev pub asn1_cert : GoType
asn1_cert = struct (field (codes "Data") (codes "minlen:1,maxlen:16777215") bytes done)

abbrev pub log_id : GoType
log_id = struct (field (codes "KeyID") [] (byte_array 32) done)

abbrev pub pre_cert : GoType
pre_cert = struct (
    field (codes "IssuerKeyHash") [] (byte_array 32)
      (field (codes "TBSCertificate") (codes "minlen:1,maxlen:16777215") bytes done))

abbrev pub signature_and_hash_algorithm : GoType
signature_and_hash_algorithm = struct (
    field (codes "Hash") (codes "maxval:255") enum
      (field (codes "Signature") (codes "maxval:255") enum done))

abbrev pub digitally_signed : GoType
digitally_signed = struct (
    field (codes "Algorithm") [] signature_and_hash_algorithm
      (field (codes "Signature") (codes "minlen:0,maxlen:65535") bytes done))

abbrev pub precert_chain_entry : GoType
precert_chain_entry = struct (
    field (codes "PreCertificate") (codes "minlen:1,maxlen:16777215") asn1_cert
      (field (codes "CertificateChain") (codes "minlen:0,maxlen:16777215") (slice asn1_cert) done))

abbrev pub certificate_chain : GoType
certificate_chain =
    struct (field (codes "Entries") (codes "minlen:0,maxlen:16777215") (slice asn1_cert) done)

abbrev pub json_data_entry : GoType
json_data_entry = struct (field (codes "Data") (codes "minlen:0,maxlen:1677215") bytes done)

abbrev pub tree_head_signature : GoType
tree_head_signature = struct (
    field (codes "Version") (codes "maxval:255") enum (
      field (codes "SignatureType") (codes "maxval:255") enum (
        field (codes "Timestamp") [] uint64 (
          field (codes "TreeSize") [] uint64
            (field (codes "SHA256RootHash") [] (byte_array 32) done)))))

abbrev pub signed_certificate_timestamp : GoType
signed_certificate_timestamp = struct (
    field (codes "SCTVersion") (codes "maxval:255") enum (
      field (codes "LogID") [] log_id (
        field (codes "Timestamp") [] uint64 (
          field (codes "Extensions") (codes "minlen:0,maxlen:65535") bytes
            (field (codes "Signature") [] digitally_signed done)))))

abbrev pub certificate_timestamp : GoType
certificate_timestamp = struct (
    field (codes "SCTVersion") (codes "maxval:255") enum (
      field (codes "SignatureType") (codes "maxval:255") enum (
        field (codes "Timestamp") [] uint64 (
          field (codes "EntryType") (codes "maxval:65535") enum (
            pointer (codes "X509Entry") (codes "selector:EntryType,val:0") asn1_cert (
              pointer (codes "PrecertEntry") (codes "selector:EntryType,val:1") pre_cert (
                pointer (codes "JSONEntry") (codes "selector:EntryType,val:32768") json_data_entry
                  (field (codes "Extensions") (codes "minlen:0,maxlen:65535") bytes done))))))))

abbrev pub timestamped_entry : GoType
timestamped_entry = struct (
    field (codes "Timestamp") [] uint64 (
      field (codes "EntryType") (codes "maxval:65535") enum (
        pointer (codes "X509Entry") (codes "selector:EntryType,val:0") asn1_cert (
          pointer (codes "PrecertEntry") (codes "selector:EntryType,val:1") pre_cert (
            pointer (codes "JSONEntry") (codes "selector:EntryType,val:32768") json_data_entry
              (field (codes "Extensions") (codes "minlen:0,maxlen:65535") bytes done))))))

abbrev pub merkle_tree_leaf : GoType
merkle_tree_leaf = struct (
    field (codes "Version") (codes "maxval:255") enum (
      field (codes "LeafType") (codes "maxval:255") enum (
        pointer (codes "TimestampedEntry") (codes "selector:LeafType,val:0") timestamped_entry
          done)))

abbrev pub x509_log_entry_type : ℕ
x509_log_entry_type = 0

abbrev pub precert_log_entry_type : ℕ
precert_log_entry_type = 1

abbrev pub x_json_log_entry_type : ℕ
x_json_log_entry_type = 0x8000

abbrev pub timestamped_entry_leaf_type : ℕ
timestamped_entry_leaf_type = 0

abbrev pub v1 : ℕ
v1 = 0

abbrev pub certificate_timestamp_signature_type : ℕ
certificate_timestamp_signature_type = 0

abbrev pub tree_hash_signature_type : ℕ
tree_hash_signature_type = 1

abbrev pub tree_leaf_prefix : ℕ
tree_leaf_prefix = 0x00

-- The fields of a TimestampedEntry value. A nil pointer is `none`.
abbrev pub TimestampedEntry : Type 0
TimestampedEntry = Val timestamped_entry

abbrev pub entry_timestamp : TimestampedEntry → ℕ
entry_timestamp e = e.0

abbrev pub entry_type : TimestampedEntry → ℕ
entry_type e = e.1.0

abbrev pub x509_entry : TimestampedEntry → Option (Val asn1_cert)
x509_entry e = e.1.1.0

abbrev pub precert_entry : TimestampedEntry → Option (Val pre_cert)
precert_entry e = e.1.1.1.0

abbrev pub json_entry : TimestampedEntry → Option (Val json_data_entry)
json_entry e = e.1.1.1.1.0

abbrev pub entry_extensions : TimestampedEntry → List ℕ
entry_extensions e = e.1.1.1.1.1.0

-- The TimestampedEntry that a MerkleTreeLeaf value points to.
abbrev pub MerkleTreeLeaf : Type 0
MerkleTreeLeaf = Val merkle_tree_leaf

abbrev pub leaf_entry : MerkleTreeLeaf → Option TimestampedEntry
leaf_entry l = l.1.1.0

-- The fields of a SignedCertificateTimestamp value.
abbrev pub Sct : Type 0
Sct = Val signed_certificate_timestamp

abbrev pub sct_version : Sct → ℕ
sct_version s = s.0

abbrev pub sct_timestamp : Sct → ℕ
sct_timestamp s = s.1.1.0

abbrev pub sct_extensions : Sct → List ℕ
sct_extensions s = s.1.1.1.0

-- SignedTreeHead; it is not TLS-encoded itself.
pub record SignedTreeHead : Type 0 where
  pub version : ℕ
  pub tree_size : ℕ
  pub timestamp : ℕ
  pub sha256_root_hash : List ℕ
  pub tree_head_signature : Val digitally_signed
  pub log_id : List ℕ
