-- ===== src/Ct/Accepted.antt =====
-- serialization.go: what RawLogEntryFromLeaf and LogEntryFromLeaf accept, and that they return.
use certificate_transparency.Prelude.{
  ℕ, ◌≡◌, ◌≢◌, inl, inr, refl, ap, none, some, List, [], ◌==◌, arith, All, Bool-cases, ◌∙◌,
}
use certificate_transparency.Prelude.Bytes.{IsByte}
use certificate_transparency.Prelude.Int.{ℤ}
use certificate_transparency.Prelude.Outcome.{
  ok, Returns, ok-Returns, err-Returns, >>=-Returns, >>=-eq-ok,
}
use certificate_transparency.Tls.Types.{Val}
use certificate_transparency.Tls.Marshal.{marshal}
use certificate_transparency.Tls.Codable.{is_codable, is_proper, IsVal}
use certificate_transparency.Ct.Types.{
  asn1_cert, merkle_tree_leaf, precert_chain_entry, certificate_chain, TimestampedEntry, entry_type,
  x509_entry, precert_entry, MerkleTreeLeaf, leaf_entry,
}
use certificate_transparency.Ct.X509.{X509}
use certificate_transparency.Ct.Signed.{deref}
use certificate_transparency.Ct.Entries.{
  LeafEntry, RawLogEntry, unmarshal_all, with_chain, raw_log_entry_from_leaf, to_log_entry,
  typed_log_entry, log_entry_from_leaf, x509_log_entry, precert_log_entry,
}
use certificate_transparency.Ct.Tagged.{IsChosen, unmarshal-IsChosen}
use certificate_transparency.Ct.Whole.{
  unmarshal_all-Returns, unmarshal_all-ok, unmarshal_all-marshal, deref-Returns, deref->>=_Returns,
}
use certificate_transparency.Ct.Stored.{IsChainOf, with_chain-lem}

-- Encodings of a leaf with an entry and of its chain, of values that the Go types have, are read back
-- as the raw entry they hold.
pub raw_log_entry-marshal :
    (r : RawLogEntry) (e : TimestampedEntry) (stored : LeafEntry)
    → IsVal merkle_tree_leaf r.leaf
    → IsVal precert_chain_entry (r.cert, (r.chain, tt))
    → marshal merkle_tree_leaf r.leaf ≡ ok stored.leaf_input
    → leaf_entry r.leaf ≡ some e
    → IsChainOf r e stored.extra_data
    → raw_log_entry_from_leaf r.index stored ≡ ok r
unfolding raw_log_entry_from_leaf with_chain is_codable
raw_log_entry-marshal r e stored v0 v1 m l (inl (x, c, w)) =
    rw
      (
        unmarshal_all-marshal merkle_tree_leaf r.leaf stored.leaf_input refl v0 m,
        l,
        x,
        unmarshal_all-marshal certificate_chain (r.chain, tt) stored.extra_data refl v1.1 w,
        c,
      )
      refl
raw_log_entry-marshal r e stored v0 v1 m l (inr (p, w)) =
    rw
      (
        unmarshal_all-marshal merkle_tree_leaf r.leaf stored.leaf_input refl v0 m,
        l,
        p,
        unmarshal_all-marshal precert_chain_entry (r.cert, (r.chain, tt)) stored.extra_data refl v1
            w,
      )
      refl

with_chain-Returns :
    (index : ℤ) (leaf : MerkleTreeLeaf) (e : TimestampedEntry) (extra_data : List ℕ)
    → IsChosen e
    → Returns (with_chain index leaf e extra_data)
unfolding with_chain is_proper
with_chain-Returns index leaf e extra_data chosen = elim (Bool-cases (entry_type e == 0)) [
  | inl x ↦ rw x (
      >>=-Returns (unmarshal_all certificate_chain extra_data) _
        (unmarshal_all-Returns certificate_chain extra_data refl)
        (λ chain _.
          >>=-Returns (deref (x509_entry e)) _
            (deref-Returns (x509_entry e) (chosen.0 (ground arith))) (λ cert _. ok-Returns _)))
  | inr not_x ↦ elim (Bool-cases (entry_type e == 1)) [
    | inl p ↦
        rw (not_x, p)
          (>>=-Returns (unmarshal_all precert_chain_entry extra_data) _
            (unmarshal_all-Returns precert_chain_entry extra_data refl) (λ chain _. ok-Returns _))
    | inr not_p ↦ rw (not_x, not_p) (err-Returns _)
  ]
]

module _ (x : X509) where
  x509_log_entry-Returns :
      (r : RawLogEntry) (cert : Val asn1_cert) → Returns (x509_log_entry x r cert)
  unfolding x509_log_entry
  x509_log_entry-Returns r cert = ground (arith)

  precert_log_entry-Returns :
      (r : RawLogEntry) (e : TimestampedEntry)
      → precert_entry e ≢ none
      → Returns (precert_log_entry x r e)
  unfolding precert_log_entry
  precert_log_entry-Returns r e h =
      >>=-Returns (deref (precert_entry e)) _ (deref-Returns (precert_entry e) h)
        (λ p _. ground arith)

  typed_log_entry-Returns :
      (r : RawLogEntry) (e : TimestampedEntry) → IsChosen e → Returns (typed_log_entry x r e)
  unfolding typed_log_entry
  typed_log_entry-Returns r e chosen = elim (Bool-cases (entry_type e == 0)) [
    | inl c ↦ rw c (
        >>=-Returns (deref (x509_entry e)) _
          (deref-Returns (x509_entry e) (chosen.0 (ground arith)))
          (λ cert _. x509_log_entry-Returns r cert))
    | inr not_c ↦ elim (Bool-cases (entry_type e == 1)) [
      | inl p ↦ rw (not_c, p) (precert_log_entry-Returns r e (chosen.1 (ground arith)))
      | inr not_p ↦ rw (not_c, not_p) (err-Returns _)
    ]
  ]

-- The leaf that RawLogEntryFromLeaf reads has the parts that its type names.
raw_log_entry-IsChosen :
    (index : ℤ) (stored : LeafEntry) (r : RawLogEntry)
    → All IsByte stored.leaf_input
    → All IsByte stored.extra_data
    → raw_log_entry_from_leaf index stored ≡ ok r
    → (e : TimestampedEntry) × (leaf_entry r.leaf ≡ some e) × IsChosen e
unfolding raw_log_entry_from_leaf
raw_log_entry-IsChosen index stored r b0 b1 h =
    let (leaf, read, h1) = >>=-eq-ok (unmarshal_all merkle_tree_leaf stored.leaf_input) _ h in
    let (e, d, h2) = >>=-eq-ok (deref (leaf_entry leaf)) _ h1 in
    let (same_index, same_leaf, chain) = with_chain-lem index leaf e stored.extra_data r b1 h2 in
    let (e', l, chosen) =
      unmarshal-IsChosen stored.leaf_input leaf [] b0
        (unmarshal_all-ok merkle_tree_leaf stored.leaf_input leaf read) in
    (e', ap leaf_entry same_leaf ∙ l, chosen)

raw_log_entry-Returns :
    (index : ℤ) (stored : LeafEntry)
    → All IsByte stored.leaf_input
    → Returns (raw_log_entry_from_leaf index stored)
unfolding raw_log_entry_from_leaf is_proper
raw_log_entry-Returns index stored b0 =
    >>=-Returns (unmarshal_all merkle_tree_leaf stored.leaf_input) _
      (unmarshal_all-Returns merkle_tree_leaf stored.leaf_input refl)
      (λ leaf read.
        let (e, l, chosen) =
          unmarshal-IsChosen stored.leaf_input leaf [] b0
            (unmarshal_all-ok merkle_tree_leaf stored.leaf_input leaf read) in
        deref->>=_Returns (leaf_entry leaf) e (λ f. with_chain index leaf f stored.extra_data) l
          (with_chain-Returns index leaf e stored.extra_data chosen))

-- LogEntryFromLeaf returns on any stored bytes, with an entry or an error: it reads through no nil
-- pointer, whatever the x509 package answers.
pub log_entry_from_leaf-Returns :
    (x : X509) (index : ℤ) (stored : LeafEntry)
    → All IsByte stored.leaf_input
    → All IsByte stored.extra_data
    → Returns (log_entry_from_leaf x index stored)
unfolding log_entry_from_leaf to_log_entry
log_entry_from_leaf-Returns x index stored b0 b1 =
    >>=-Returns (raw_log_entry_from_leaf index stored) _ (raw_log_entry-Returns index stored b0)
      (λ r read.
        let (e, l, chosen) = raw_log_entry-IsChosen index stored r b0 b1 read in
        deref->>=_Returns (leaf_entry r.leaf) e (typed_log_entry x r) l
          (typed_log_entry-Returns x r e chosen))
