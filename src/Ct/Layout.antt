-- ===== src/Ct/Layout.antt =====
-- serialization.go: the bytes of a leaf and the bytes that are signed, as RFC 6962 lays them out.
use certificate_transparency.Prelude.{
  ℕ, ◌≤◌, ◌<◌, ◌^◌, ◌≡◌, refl, none, some, List, ◌∷◌, ◌++◌, length, arith, All, append_assoc,
  append-nil, true,
}
use certificate_transparency.Prelude.Bytes.{IsByte, map_byte, be_bytes}
use certificate_transparency.Prelude.Text.{codes}
use certificate_transparency.Prelude.Outcome.{ok}
use certificate_transparency.Tls.Tag.{FieldInfo, zero_info, check}
use certificate_transparency.Tls.Marshal.{marshal}
use certificate_transparency.Ct.Types.{
  merkle_tree_leaf, TimestampedEntry, Sct, sct_version, sct_timestamp, sct_extensions,
  SignedTreeHead,
}
use certificate_transparency.Ct.Signed.{
  serialize_sct_signature_input, serialize_sth_signature_input,
}
use certificate_transparency.Ct.Leaves.{leaf_of}

-- What a log signs for: a certificate, or the hash of the issuer's key and a TBSCertificate.
pub data SignedEntry : Type 0 where
  x509 : List ℕ → SignedEntry
  precert : List ℕ → List ℕ → SignedEntry

-- opaque<1..2^24-1> and opaque<0..2^16-1> of RFC 5246.
abbrev pub opaque24 : List ℕ → List ℕ
opaque24 bs = be_bytes 3 (length bs) ++ bs

abbrev pub opaque16 : List ℕ → List ℕ
opaque16 bs = be_bytes 2 (length bs) ++ bs

-- The entry_type and the signed_entry of RFC 6962, section 3.2.
abbrev pub entry_bytes : SignedEntry → List ℕ
entry_bytes (x509 cert) = 0 ∷ 0 ∷ opaque24 cert
entry_bytes (precert key_hash tbs) = 0 ∷ 1 ∷ (key_hash ++ opaque24 tbs)

-- The timestamp, the entry and the extensions.
abbrev pub timestamped_bytes : ℕ → SignedEntry → List ℕ → List ℕ
timestamped_bytes timestamp e exts = be_bytes 8 timestamp ++ (entry_bytes e ++ opaque16 exts)

-- The Go value that holds them.
abbrev pub entry_value : ℕ → SignedEntry → List ℕ → TimestampedEntry
entry_value timestamp (x509 cert) exts =
    (timestamp, (0, (some (cert, tt), (none, (none, (exts, tt))))))
entry_value timestamp (precert key_hash tbs) exts =
    (timestamp, (1, (none, (some (key_hash, (tbs, tt)), (none, (exts, tt))))))

-- The parts are bytes, and their lengths are those that the RFC allows.
abbrev pub IsOpaque24 : List ℕ → Type 0
IsOpaque24 bs = (1 ≤ length bs) × (length bs < 2 ^ 24) × All IsByte bs

abbrev pub IsOpaque16 : List ℕ → Type 0
IsOpaque16 bs = (length bs < 2 ^ 16) × All IsByte bs

abbrev pub IsEntry : SignedEntry → Type 0
IsEntry (x509 cert) = IsOpaque24 cert
IsEntry (precert key_hash tbs) = All IsByte key_hash × IsOpaque24 tbs

-- What the tags of ASN1Cert, of PreCert and of the extensions give.
abbrev pub data_info : FieldInfo
data_info = record zero_info {
  count = 3;
  count_set = true;
  minlen = 1;
  maxlen = 16777215;
  name = codes "Data";
}

abbrev pub tbs_info : FieldInfo
tbs_info = record data_info { name = codes "TBSCertificate" }

abbrev pub extensions_info : FieldInfo
extensions_info = record zero_info {
  count = 2;
  count_set = true;
  maxlen = 65535;
  name = codes "Extensions";
}

check-data : (n : ℕ) → 1 ≤ n → n < 2 ^ 24 → check data_info n (codes "Data: ") ≡ ok tt
unfolding check
check-data n h0 h1 = ground arith

check-tbs : (n : ℕ) → 1 ≤ n → n < 2 ^ 24 → check tbs_info n (codes "TBSCertificate: ") ≡ ok tt
unfolding check
check-tbs n h0 h1 = ground arith

check-extensions : (n : ℕ) → n < 2 ^ 16 → check extensions_info n (codes "Extensions: ") ≡ ok tt
unfolding check
check-extensions n h = ground arith

-- A MerkleTreeLeaf is written as version 0, leaf type 0, the timestamp, the entry and the extensions,
-- as RFC 6962, section 3.4, lays them out; for a certificate or a TBSCertificate of 1 to 2^24 - 1
-- bytes and extensions of less than 2^16 bytes.
pub leaf_layout :
    (timestamp : ℕ) (e : SignedEntry) (exts : List ℕ)
    → IsEntry e
    → IsOpaque16 exts
    → marshal merkle_tree_leaf (leaf_of (entry_value timestamp e exts))
      ≡ ok (0 ∷ 0 ∷ timestamped_bytes timestamp e exts)
unfolding marshal
leaf_layout timestamp (x509 cert) exts c x =
    rw
      (
        check-data (length cert) c.0 c.1,
        check-extensions (length exts) x.0,
        map_byte cert c.2,
        map_byte exts x.1,
      )
      (simp (append-nil, append_assoc))
leaf_layout timestamp (precert key_hash tbs) exts c x =
    rw
      (
        check-tbs (length tbs) c.1.0 c.1.1,
        check-extensions (length exts) x.0,
        map_byte key_hash c.0,
        map_byte tbs c.1.2,
        map_byte exts x.1,
      )
      (simp (append-nil, append_assoc))

-- What is signed for an SCT of version 0 is version 0, signature type 0, the SCT's timestamp, the
-- entry and the SCT's extensions, as RFC 6962, section 3.2, lays them out; the timestamp and the
-- extensions of the leaf do not matter.
pub sct_layout :
    (sct : Sct) (timestamp : ℕ) (e : SignedEntry) (exts : List ℕ)
    → sct_version sct ≡ 0
    → IsEntry e
    → IsOpaque16 (sct_extensions sct)
    → serialize_sct_signature_input sct (leaf_of (entry_value timestamp e exts))
      ≡ ok (0 ∷ 0 ∷ timestamped_bytes (sct_timestamp sct) e (sct_extensions sct))
unfolding marshal serialize_sct_signature_input
sct_layout (v, (id, (ts, (ext, sig)))) timestamp (x509 cert) exts h c x =
    rw
      (
        h,
        check-data (length cert) c.0 c.1,
        check-extensions (length ext) x.0,
        map_byte cert c.2,
        map_byte ext x.1,
      )
      (simp (append-nil, append_assoc))
sct_layout (v, (id, (ts, (ext, sig)))) timestamp (precert key_hash tbs) exts h c x =
    rw
      (
        h,
        check-tbs (length tbs) c.1.0 c.1.1,
        check-extensions (length ext) x.0,
        map_byte key_hash c.0,
        map_byte tbs c.1.2,
        map_byte ext x.1,
      )
      (simp (append-nil, append_assoc))

-- What is signed for an STH of version 0 is version 0, signature type 1, the timestamp, the tree's
-- size and its root hash, as RFC 6962, section 3.5, lays them out.
pub sth_layout :
    (sth : SignedTreeHead)
    → sth.version ≡ 0
    → length sth.sha256_root_hash ≡ 32
    → All IsByte sth.sha256_root_hash
    → serialize_sth_signature_input sth
      ≡ ok
          (0 ∷ 1 ∷ (be_bytes 8 sth.timestamp ++ (be_bytes 8 sth.tree_size ++ sth.sha256_root_hash)))
unfolding marshal serialize_sth_signature_input
sth_layout sth h n b =
    rw (h, n, map_byte sth.sha256_root_hash b, append-nil sth.sha256_root_hash) refl
