-- ===== src/Ct/Tagged.antt =====
-- types.go: the select fields of a leaf that was read. Exactly the chosen pointer is not nil.
use certificate_transparency.Prelude.{ℕ, ◌≡◌, ◌≢◌, refl, Option, none, some, List, [], arith, All}
use certificate_transparency.Prelude.Bytes.{IsByte}
use certificate_transparency.Prelude.Outcome.{ok}
use certificate_transparency.Tls.Marshal.{marshal}
use certificate_transparency.Tls.Canonical.{marshal-unmarshal_params}
use certificate_transparency.Tls.Codable.{is_codable}
use certificate_transparency.Tls.Parse.{unmarshal}
use certificate_transparency.Ct.Types.{
  merkle_tree_leaf, MerkleTreeLeaf, leaf_entry, TimestampedEntry, entry_type, x509_entry,
  precert_entry, pre_cert, asn1_cert, json_data_entry,
}
use certificate_transparency.Tls.Types.{Val}

-- A leaf with a nil TimestampedEntry is not written.
no_entry : (v t : ℕ) (bs : List ℕ) → marshal merkle_tree_leaf (v, (t, (none, tt))) ≡ ok bs → ⊥
unfolding marshal
no_entry v t bs h = ground arith

-- The pointer that the entry's type chooses is not nil.
no_cert :
    (v t ts k : ℕ) (p : Option (Val pre_cert)) (j : Option (Val json_data_entry)) (exts bs : List ℕ)
    → marshal merkle_tree_leaf (v, (t, (some (ts, (0, (none, (p, (j, (exts, tt)))))), tt))) ≡ ok bs
    → ⊥
unfolding marshal
no_cert v t ts k p j exts bs h = ground arith

no_precert :
    (v t ts : ℕ) (x : Option (Val asn1_cert)) (j : Option (Val json_data_entry)) (exts bs : List ℕ)
    → marshal merkle_tree_leaf (v, (t, (some (ts, (1, (x, (none, (j, (exts, tt)))))), tt))) ≡ ok bs
    → ⊥
unfolding marshal
no_precert v t ts x j exts bs h = ground arith

-- Where the type is that of a certificate or a precertificate, there is one.
abbrev pub IsChosen : TimestampedEntry → Type 0
IsChosen e = (entry_type e ≡ 0 → x509_entry e ≢ none) × (entry_type e ≡ 1 → precert_entry e ≢ none)

marshal-IsChosen :
    (leaf : MerkleTreeLeaf) (bs : List ℕ)
    → marshal merkle_tree_leaf leaf ≡ ok bs
    → (e : TimestampedEntry) × (leaf_entry leaf ≡ some e) × IsChosen e
marshal-IsChosen (v, (t, (none, u))) bs h = absurd (no_entry v t bs h)
marshal-IsChosen (v, (t, (some (ts, (k, (x, (p, (j, (exts, u')))))), u))) bs h = (
  (ts, (k, (x, (p, (j, (exts, u')))))),
  refl,
  (
    (λ a b. no_cert v t ts k p j exts bs (rw (a, b) at h)),
    (λ a b. no_precert v t ts x j exts bs (rw (a, b) at h)),
  ),
)

-- A leaf that was read from bytes has a TimestampedEntry, and it has the certificate or the
-- precertificate that its type names.
pub unmarshal-IsChosen :
    (b : List ℕ) (leaf : MerkleTreeLeaf) (rest : List ℕ)
    → All IsByte b
    → unmarshal merkle_tree_leaf b ≡ ok (leaf, rest)
    → (e : TimestampedEntry) × (leaf_entry leaf ≡ some e) × IsChosen e
unfolding marshal unmarshal is_codable
unmarshal-IsChosen b leaf rest small h =
    let (value, (bs, written, front)) =
      marshal-unmarshal_params merkle_tree_leaf [] b leaf rest refl small h in
    marshal-IsChosen leaf bs written
