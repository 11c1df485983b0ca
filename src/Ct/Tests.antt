-- ===== src/Ct/Tests.antt =====
-- serialization.go and types.go: runs on concrete inputs, and the theorems on them.
use certificate_transparency.Prelude.{ℕ, ◌≡◌, ◌≢◌, refl, false, some, List, [], ◌∷◌, All, arith}
use certificate_transparency.Prelude.Bytes.{IsByte, be_bytes, are_bytes-IsByte, be_value}
use certificate_transparency.Prelude.Int.{pos}
use certificate_transparency.Prelude.Outcome.{ok, Returns}
use certificate_transparency.Tls.Tag.{check}
use certificate_transparency.Tls.Parse.{unmarshal}
use certificate_transparency.Tls.Marshal.{marshal}
use certificate_transparency.Tls.Codable.{set_pointer, nil_pointer, IsVal}
use certificate_transparency.Ct.Types.{
  asn1_cert, pre_cert, json_data_entry, merkle_tree_leaf, timestamped_entry, TimestampedEntry,
  leaf_entry, Sct, SignedTreeHead,
}
use certificate_transparency.Ct.X509.{Certificate, X509, parsed}
use certificate_transparency.Ct.Signed.{
  serialize_sct_signature_input, serialize_sth_signature_input,
}
use certificate_transparency.Ct.Leaves.{
  leaf_of, is_pre_issuer, parse_chain, merkle_tree_leaf_from_chain, merkle_tree_leaf_from_raw_chain,
  merkle_tree_leaf_for_embedded_sct, leaf_hash_for_leaf,
}
use certificate_transparency.Ct.Entries.{
  AddChainResponse, GetSthResponse, to_signed_certificate_timestamp, LeafEntry, RawLogEntry,
  raw_log_entry_from_leaf, log_entry_from_leaf,
}
use certificate_transparency.Ct.Layout.{
  SignedEntry, x509, IsEntry, IsOpaque16, entry_value, timestamped_bytes, leaf_layout, sct_layout,
}
use certificate_transparency.Ct.Separation.{IsSigned, sct_signed-injective, sct-sth_apart}
use certificate_transparency.Ct.Stored.{IsChainOf, raw_log_entry-IsStored, leaf_hash-raw_log_entry}
use certificate_transparency.Ct.Accepted.{log_entry_from_leaf-Returns}
use certificate_transparency.Ct.Responses.{IsAnswerOf, to_signed_certificate_timestamp-IsAnswerOf}
use certificate_transparency.Ct.Chains.{from_raw_chain-eq_from_chain, embedded_sct-eq_precert}

-- An x509 package whose certificates are their own bytes, and whose hash is always zero.
abbrev certificate : List ℕ → Certificate
certificate bs = record {
  raw = bs;
  raw_tbs_certificate = bs;
  raw_subject_public_key_info = bs;
  ext_key_usage = [];
  not_after = pos 0;
  is_ca = false;
  extensions = [];
}

abbrev plain : X509
plain = record {
  parse_certificate = λ bs. parsed (certificate bs) false;
  parse_tbs_certificate = λ bs. parsed (certificate bs) false;
  build_precert_tbs = λ bs issuer. some bs;
  remove_sct_list = λ bs. some bs;
  sum256 = λ bs. be_bytes 32 0;
}

abbrev cert : SignedEntry
cert = x509 (48 ∷ 49 ∷ [])

cert-IsEntry : IsEntry cert
cert-IsEntry = (omega arith, omega arith, (omega arith, (omega arith, tt)))

no_extensions : IsOpaque16 []
no_extensions = (omega arith, tt)

leaf_layout_example :
    marshal merkle_tree_leaf (leaf_of (entry_value 5 cert []))
    ≡ ok (0 ∷ 0 ∷ timestamped_bytes 5 cert [])
leaf_layout_example = leaf_layout 5 cert [] cert-IsEntry no_extensions

abbrev sct : Sct
sct = (0, ((be_bytes 32 1, tt), (9, ([], (((4, (3, tt)), (1 ∷ 2 ∷ [], tt)), tt)))))

sct_layout_example :
    serialize_sct_signature_input sct (leaf_of (entry_value 5 cert []))
    ≡ ok (0 ∷ 0 ∷ timestamped_bytes 9 cert [])
sct_layout_example = sct_layout sct 5 cert [] refl cert-IsEntry no_extensions

abbrev sth : SignedTreeHead
sth = record {
  version = 0;
  tree_size = 3;
  timestamp = 9;
  sha256_root_hash = be_bytes 32 7;
  tree_head_signature = ((4, (3, tt)), (1 ∷ 2 ∷ [], tt));
  log_id = be_bytes 32 0;
}

sct-sth_apart_example : serialize_sth_signature_input sth ≢ ok (0 ∷ 0 ∷ timestamped_bytes 9 cert [])
sct-sth_apart_example = sct-sth_apart sct (leaf_of (entry_value 5 cert [])) sth _ sct_layout_example

cert-IsSigned : IsSigned sct cert
cert-IsSigned = (refl, omega arith, no_extensions, cert-IsEntry, tt)

sct_signed-injective_example : (◌≡◌ {A = ℕ} 9 9) × (cert ≡ cert) × (◌≡◌ {A = List ℕ} [] [])
sct_signed-injective_example =
    sct_signed-injective sct sct cert cert 5 5 [] [] cert-IsSigned cert-IsSigned refl

-- A stored certificate with a chain of one more.
abbrev raw : RawLogEntry
raw = record {
  index = pos 7;
  leaf = leaf_of (entry_value 5 cert []);
  cert = (48 ∷ 49 ∷ [], tt);
  chain = (50 ∷ [], tt) ∷ [];
}

abbrev stored : LeafEntry
stored = record {
  leaf_input = 0 ∷ 0 ∷ 0 ∷ 0 ∷ 0 ∷ 0 ∷ 0 ∷ 0 ∷ 0 ∷ 5 ∷ 0 ∷ 0 ∷ 0 ∷ 0 ∷ 2 ∷ 48 ∷ 49 ∷ 0 ∷ 0 ∷ [];
  extra_data = 0 ∷ 0 ∷ 4 ∷ 0 ∷ 0 ∷ 1 ∷ 50 ∷ [];
}

read_stored : raw_log_entry_from_leaf (pos 7) stored ≡ ok raw
unfolding raw_log_entry_from_leaf unmarshal check be_value
read_stored = refl

stored_bytes : All IsByte stored.leaf_input
stored_bytes = are_bytes-IsByte stored.leaf_input refl

extra_bytes : All IsByte stored.extra_data
extra_bytes = are_bytes-IsByte stored.extra_data refl

raw_log_entry-IsStored_example :
    (raw.index ≡ pos 7)
    × (marshal merkle_tree_leaf raw.leaf ≡ ok stored.leaf_input)
    × ((e : TimestampedEntry) × (leaf_entry raw.leaf ≡ some e) × IsChainOf raw e stored.extra_data)
raw_log_entry-IsStored_example =
    raw_log_entry-IsStored (pos 7) stored raw stored_bytes extra_bytes read_stored

leaf_hash-raw_log_entry_example :
    leaf_hash_for_leaf plain raw.leaf ≡ ok (plain.sum256 (0 ∷ stored.leaf_input))
leaf_hash-raw_log_entry_example =
    leaf_hash-raw_log_entry plain (pos 7) stored raw stored_bytes extra_bytes read_stored

log_entry_from_leaf-Returns_example : Returns (log_entry_from_leaf plain (pos 7) stored)
log_entry_from_leaf-Returns_example =
    log_entry_from_leaf-Returns plain (pos 7) stored stored_bytes extra_bytes

entry-IsVal : IsVal timestamped_entry (entry_value 5 cert [])
entry-IsVal = (
  omega arith,
  (
    omega arith,
    (
      set_pointer (IsVal asn1_cert) (48 ∷ 49 ∷ [], tt) (cert-IsEntry.2, tt),
      (nil_pointer (IsVal pre_cert), (nil_pointer (IsVal json_data_entry), (tt, tt))),
    ),
  ),
)

raw-IsVal : IsVal merkle_tree_leaf raw.leaf
raw-IsVal = (
  omega arith,
  (omega arith, (set_pointer (IsVal timestamped_entry) (entry_value 5 cert []) entry-IsVal, tt)),
)

from_raw_chain-eq_from_chain_example :
    merkle_tree_leaf_from_raw_chain plain ((48 ∷ [], tt) ∷ (49 ∷ [], tt) ∷ []) 1 5
    ≡ merkle_tree_leaf_from_chain plain (certificate (48 ∷ []) ∷ certificate (49 ∷ []) ∷ []) 1 5
unfolding parse_chain
from_raw_chain-eq_from_chain_example =
    from_raw_chain-eq_from_chain plain 4 ((48 ∷ [], tt) ∷ (49 ∷ [], tt) ∷ [])
      (certificate (48 ∷ []) ∷ certificate (49 ∷ []) ∷ []) 1 5 (omega arith) refl

embedded_sct-eq_precert_example :
    merkle_tree_leaf_for_embedded_sct plain (certificate (48 ∷ []) ∷ certificate (49 ∷ []) ∷ []) 5
    ≡ merkle_tree_leaf_from_chain plain (certificate (48 ∷ []) ∷ certificate (49 ∷ []) ∷ []) 1 5
unfolding is_pre_issuer
embedded_sct-eq_precert_example =
    embedded_sct-eq_precert plain (certificate (48 ∷ [])) (certificate (48 ∷ []))
      (certificate (49 ∷ [])) [] [] (48 ∷ []) 5 refl refl refl

-- Answers of a log, with a decoder that takes the text for the bytes.
abbrev signature : List ℕ
signature = 4 ∷ 3 ∷ 0 ∷ 2 ∷ 1 ∷ 2 ∷ []

signature_bytes : All IsByte signature
signature_bytes = are_bytes-IsByte signature refl

abbrev answer : AddChainResponse
answer = record {
  sct_version = 0;
  id = be_bytes 32 1;
  timestamp = 9;
  extensions = [];
  signature = signature;
}

to_signed_certificate_timestamp-IsAnswerOf_example : IsAnswerOf (λ text. some text) answer sct
unfolding to_signed_certificate_timestamp unmarshal check be_bytes
to_signed_certificate_timestamp-IsAnswerOf_example =
    to_signed_certificate_timestamp-IsAnswerOf (λ text. some text) answer sct signature_bytes refl

abbrev sth_answer : GetSthResponse
sth_answer = record {
  tree_size = 3;
  timestamp = 9;
  sha256_root_hash = be_bytes 32 7;
  tree_head_signature = signature;
}
