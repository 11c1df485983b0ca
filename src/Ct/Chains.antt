-- ===== src/Ct/Chains.antt =====
-- serialization.go: leaves that are made from chains of certificates.
use certificate_transparency.Prelude.{
  ℕ, zero, suc, ◌≡◌, ◌≤◌, refl, ap, false, none, some, List, [], ◌∷◌, arith, take,
}
use certificate_transparency.Prelude.Outcome.{ok, >>=-eq-ok, ok_inj}
use certificate_transparency.Tls.Types.{Val}
use certificate_transparency.Ct.Types.{asn1_cert}
use certificate_transparency.Ct.X509.{Certificate, X509}
use certificate_transparency.Ct.Leaves.{
  is_pre_issuer, usable, merkle_tree_leaf_from_chain, parse_chain, merkle_tree_leaf_from_raw_chain,
  merkle_tree_leaf_for_embedded_sct,
}

module _ (x : X509) where
  parse_chain-take :
      (n k : ℕ) (raw : List (Val asn1_cert)) (chain : List Certificate)
      → n ≤ k
      → parse_chain x k raw ≡ ok chain
      → parse_chain x n raw ≡ ok (take n chain)
  unfolding parse_chain
  parse_chain-take zero k raw chain n≤k h = refl
  parse_chain-take (suc n) zero raw chain n≤k h = absurd (omega arith)
  parse_chain-take (suc n) (suc k) [] chain n≤k h = ap (λ c. ok (take (suc n) c)) (ok_inj h)
  parse_chain-take (suc n) (suc k) (r ∷ raw) chain n≤k h =
      let (cert, read, h1) = >>=-eq-ok (usable x (x.parse_certificate r.0)) _ h in
      let (certs, reads, h2) = >>=-eq-ok (parse_chain x k raw) _ h1 in
      rw (read, parse_chain-take n k raw certs (omega arith) reads)
        (ap (λ c. ok (take (suc n) c)) (ok_inj h2))

  -- Three certificates are all that a leaf is made from.
  from_chain-take :
      (chain : List Certificate) (etype timestamp : ℕ)
      → merkle_tree_leaf_from_chain x (take 3 chain) etype timestamp
        ≡ merkle_tree_leaf_from_chain x chain etype timestamp
  unfolding merkle_tree_leaf_from_chain
  from_chain-take [] etype timestamp = refl
  from_chain-take (a ∷ []) etype timestamp = refl
  from_chain-take (a ∷ b ∷ []) etype timestamp = refl
  from_chain-take (a ∷ b ∷ c ∷ chain) etype timestamp = refl

-- To parse no more than three certificates of a chain is enough: where a longer part of it, or all
-- of it, parses, the leaf is the one that MerkleTreeLeafFromChain makes from that part.
pub from_raw_chain-eq_from_chain :
    (x : X509) (n : ℕ) (raw : List (Val asn1_cert)) (chain : List Certificate) (etype timestamp : ℕ)
    → 3 ≤ n
    → parse_chain x n raw ≡ ok chain
    → merkle_tree_leaf_from_raw_chain x raw etype timestamp
      ≡ merkle_tree_leaf_from_chain x chain etype timestamp
unfolding merkle_tree_leaf_from_raw_chain
from_raw_chain-eq_from_chain x n raw chain etype timestamp long h =
    rw (parse_chain-take x 3 n raw chain long h) (from_chain-take x chain etype timestamp)

-- A final certificate with embedded SCTs and the precertificate it was issued for have the same
-- leaf: where the issuer is no pre-issuer, and the certificate without its SCT list is the
-- precertificate without its poison.
pub embedded_sct-eq_precert :
    (x : X509) (cert pre issuer : Certificate) (rest rest' : List Certificate) (tbs : List ℕ)
    (timestamp : ℕ)
    → is_pre_issuer issuer ≡ false
    → x.remove_sct_list cert.raw_tbs_certificate ≡ some tbs
    → x.build_precert_tbs pre.raw_tbs_certificate none ≡ some tbs
    → merkle_tree_leaf_for_embedded_sct x (cert ∷ issuer ∷ rest) timestamp
      ≡ merkle_tree_leaf_from_chain x (pre ∷ issuer ∷ rest') 1 timestamp
unfolding merkle_tree_leaf_for_embedded_sct merkle_tree_leaf_from_chain
embedded_sct-eq_precert x cert pre issuer rest rest' tbs timestamp h s p = rw (h, s, p) refl
