-- ===== src/Ct/Stored.antt =====
-- serialization.go: what RawLogEntryFromLeaf and LogEntryFromLeaf make of the bytes a log stores.
use certificate_transparency.Prelude.{
  ℕ, ◌≡◌, ◌⊎◌, inl, inr, refl, sym, ap, some, List, ◌∷◌, ◌==◌, arith, All, Bool-cases, ◌∙◌,
}
use certificate_transparency.Prelude.Bytes.{IsByte}
use certificate_transparency.Prelude.Int.{ℤ}
use certificate_transparency.Prelude.Outcome.{ok, err, >>=-eq-ok, ok_inj}
use certificate_transparency.Tls.Marshal.{marshal}
use certificate_transparency.Tls.Codable.{is_codable}
use certificate_transparency.Ct.Types.{
  merkle_tree_leaf, precert_chain_entry, certificate_chain, TimestampedEntry, entry_type,
  x509_entry, MerkleTreeLeaf, leaf_entry,
}
use certificate_transparency.Ct.X509.{X509}
use certificate_transparency.Ct.Signed.{CtError, Result, deref}
use certificate_transparency.Ct.Leaves.{leaf_hash_for_leaf}
use certificate_transparency.Ct.Entries.{
  LeafEntry, RawLogEntry, unmarshal_all, with_chain, raw_log_entry_from_leaf,
}
use certificate_transparency.Ct.Whole.{marshal-unmarshal_all, deref-ok}

-- The chain of a raw entry and the bytes it is stored in: behind the submitted precertificate if
-- the leaf is of one, otherwise alone.
abbrev pub IsChainOf : RawLogEntry → TimestampedEntry → List ℕ → Type 0
IsChainOf r e extra_data =
    ((entry_type e ≡ 0)
      × (x509_entry e ≡ some r.cert)
      × (marshal certificate_chain (r.chain, tt) ≡ ok extra_data))
    ⊎ ((entry_type e ≡ 1) × (marshal precert_chain_entry (r.cert, (r.chain, tt)) ≡ ok extra_data))

pub with_chain-lem :
    (index : ℤ) (leaf : MerkleTreeLeaf) (e : TimestampedEntry) (extra_data : List ℕ)
    (r : RawLogEntry)
    → All IsByte extra_data
    → with_chain index leaf e extra_data ≡ ok r
    → (r.index ≡ index) × (r.leaf ≡ leaf) × IsChainOf r e extra_data
unfolding with_chain is_codable
with_chain-lem index leaf e extra_data r small h = elim (Bool-cases (entry_type e == 0)) [
  | inl x ↦
      let (chain, read, h1) =
        >>=-eq-ok (unmarshal_all certificate_chain extra_data) _ (rw x at h) in
      let (cert, c, h2) = >>=-eq-ok (deref (x509_entry e)) _ h1 in
      let same : record { index = index; leaf = leaf; cert = cert; chain = chain.0 } ≡ r =
        ok_inj h2 in
      let written = (marshal-unmarshal_all certificate_chain extra_data chain refl small read).1 in
      (
        ap (λ (z : RawLogEntry). z.index) (sym same),
        ap (λ (z : RawLogEntry). z.leaf) (sym same),
        inl (
          ground arith,
          deref-ok (x509_entry e) cert c ∙ ap (λ (z : RawLogEntry). some z.cert) same,
          ap (λ (z : RawLogEntry). marshal certificate_chain (z.chain, tt)) (sym same) ∙ written,
        ),
      )
  | inr not_x ↦ elim (Bool-cases (entry_type e == 1)) [
    | inl p ↦
        let (chain, read, h1) =
          >>=-eq-ok (unmarshal_all precert_chain_entry extra_data) _ (rw (not_x, p) at h) in
        let same : record { index = index; leaf = leaf; cert = chain.0; chain = chain.1.0 } ≡ r =
          ok_inj h1 in
        let written =
          (marshal-unmarshal_all precert_chain_entry extra_data chain refl small read).1 in
        (
          ap (λ (z : RawLogEntry). z.index) (sym same),
          ap (λ (z : RawLogEntry). z.leaf) (sym same),
          inr (
            ground arith,
            ap (λ (z : RawLogEntry). marshal precert_chain_entry (z.cert, (z.chain, tt))) (sym same)
                ∙ written,
          ),
        )
    | inr not_p ↦ absurd (refused (rw (not_x, not_p) at h))
  ]
]
  where
    refused : {err' : CtError} → ◌≡◌ {A = Result RawLogEntry} (err err') (ok r) → ⊥
    refused h = cc

-- What RawLogEntryFromLeaf accepts is the encoding of what it returns, and of nothing else: the
-- leaf input is that of the leaf, and the extra data that of the chain, with the certificate taken
-- from the leaf or, for a precertificate, from the extra data.
pub raw_log_entry-IsStored :
    (index : ℤ) (stored : LeafEntry) (r : RawLogEntry)
    → All IsByte stored.leaf_input
    → All IsByte stored.extra_data
    → raw_log_entry_from_leaf index stored ≡ ok r
    → (r.index ≡ index)
      × (marshal merkle_tree_leaf r.leaf ≡ ok stored.leaf_input)
      × ((e : TimestampedEntry) × (leaf_entry r.leaf ≡ some e) × IsChainOf r e stored.extra_data)
unfolding raw_log_entry_from_leaf is_codable
raw_log_entry-IsStored index stored r b0 b1 h =
    let (leaf, read, h1) = >>=-eq-ok (unmarshal_all merkle_tree_leaf stored.leaf_input) _ h in
    let (e, d, h2) = >>=-eq-ok (deref (leaf_entry leaf)) _ h1 in
    let (same_index, same_leaf, chain) = with_chain-lem index leaf e stored.extra_data r b1 h2 in
    let written = (marshal-unmarshal_all merkle_tree_leaf stored.leaf_input leaf refl b0 read).1 in
    (
      same_index,
      ap (marshal merkle_tree_leaf) same_leaf ∙ written,
      (e, ap leaf_entry same_leaf ∙ deref-ok (leaf_entry leaf) e d, chain),
    )

-- The hash of the leaf that is read is the RFC's hash of the stored bytes: SHA-256 of a zero byte and
-- the leaf input, where RawLogEntryFromLeaf accepts these.
pub leaf_hash-raw_log_entry :
    (x : X509) (index : ℤ) (stored : LeafEntry) (r : RawLogEntry)
    → All IsByte stored.leaf_input
    → All IsByte stored.extra_data
    → raw_log_entry_from_leaf index stored ≡ ok r
    → leaf_hash_for_leaf x r.leaf ≡ ok (x.sum256 (0 ∷ stored.leaf_input))
unfolding leaf_hash_for_leaf
leaf_hash-raw_log_entry x index stored r b0 b1 h =
    rw ((raw_log_entry-IsStored index stored r b0 b1 h).1) refl
