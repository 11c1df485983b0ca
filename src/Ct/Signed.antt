-- ===== src/Ct/Signed.antt =====
-- serialization.go: the bytes that are signed for an SCT and for an STH.
use certificate_transparency.Prelude.{ℕ, Option, none, some, List, ◌==◌, if◌then◌else◌, not, length}
use certificate_transparency.Prelude.Outcome.{Outcome, ok, err, panic, diverge, ◌>>=◌}
use certificate_transparency.Tls.Tag.{TlsError}
use certificate_transparency.Tls.Types.{Val}
use certificate_transparency.Tls.Marshal.{marshal}
use certificate_transparency.Ct.Types.{
  asn1_cert, pre_cert, json_data_entry, certificate_timestamp, tree_head_signature,
  x509_log_entry_type, precert_log_entry_type, x_json_log_entry_type, v1,
  certificate_timestamp_signature_type, tree_hash_signature_type, TimestampedEntry, entry_type,
  x509_entry, precert_entry, json_entry, MerkleTreeLeaf, leaf_entry, Sct, sct_version,
  sct_timestamp, sct_extensions, SignedTreeHead,
}

pub data CtError : Type 0 where
  tls : TlsError → CtError
  unsupported_entry_type unknown_entry_type unknown_sct_version unsupported_sth_version : CtError
  invalid_hash_length invalid_id_length invalid_extensions trailing_data : CtError
  no_issuer no_issuer_of_pre_issuer poison_not_removed sct_list_not_removed : CtError
  bad_certificate bad_precertificate : CtError

abbrev pub Result {ℓ} : Type ℓ → Type ℓ
Result A = Outcome CtError A

-- An error of the tls package that is passed on.
abbrev pub from_tls {ℓ} : {A : Type ℓ} → Outcome TlsError A → Result A
from_tls (ok a) = ok a
from_tls (err e) = err (tls e)
from_tls panic = panic
from_tls diverge = diverge

-- What a nil pointer does where it is read through.
abbrev pub deref {ℓ} : {A : Type ℓ} → Option A → Result A
deref none = panic
deref (some a) = ok a

abbrev pub timestamp_of :
    Sct
    → ℕ
    → Option (Val asn1_cert)
    → Option (Val pre_cert)
    → Option (Val json_data_entry)
    → Val certificate_timestamp
timestamp_of sct t x p j = (
  sct_version sct,
  (
    certificate_timestamp_signature_type,
    (sct_timestamp sct, (t, (x, (p, (j, (sct_extensions sct, tt)))))),
  ),
)

-- The CertificateTimestamp that is signed for an entry.
unfoldable pub sct_input : Sct → TimestampedEntry → Result (Val certificate_timestamp)
sct_input sct e =
    if entry_type e == x509_log_entry_type
    then ok (timestamp_of sct (entry_type e) (x509_entry e) none none)
    else if entry_type e == precert_log_entry_type
    then (do p ← deref (precert_entry e); ok (timestamp_of sct (entry_type e) none (some p) none))
    else if entry_type e == x_json_log_entry_type
    then ok (timestamp_of sct (entry_type e) none none (json_entry e))
    else err unsupported_entry_type

-- `SerializeSCTSignatureInput`. Of the LogEntry it reads the leaf.
unfoldable pub serialize_sct_signature_input : Sct → MerkleTreeLeaf → Result (List ℕ)
unfolding sct_input
serialize_sct_signature_input sct leaf =
    if sct_version sct == v1
    then (do
      e ← deref (leaf_entry leaf)
      input ← sct_input sct e
      from_tls (marshal certificate_timestamp input))
    else err unknown_sct_version

-- `SerializeSTHSignatureInput`. The root hash is a [32]byte, so that its length is always right.
unfoldable pub serialize_sth_signature_input : SignedTreeHead → Result (List ℕ)
serialize_sth_signature_input sth =
    if sth.version == v1
    then if not (length sth.sha256_root_hash == 32)
      then err invalid_hash_length
      else from_tls (
          marshal tree_head_signature (
            sth.version,
            (
              tree_hash_signature_type,
              (sth.timestamp, (sth.tree_size, (sth.sha256_root_hash, tt))),
            ),
          ))
    else err unsupported_sth_version
