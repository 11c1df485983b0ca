-- ===== src/Ctfe/Inclusion.antt =====
-- trillian/ctfe/handlers.go: the inclusion proofs that a log answers with.
use mathlib.Core.Path.{ap₂}
use certificate_transparency.Prelude.{
  ℕ, ◌≡◌, ◌≤◌, ◌<◌, refl, ap, subst, sym, ◌∙◌, false, List, [], ◌∷◌, Option, some, ltb,
  if◌then◌else◌, arith,
}
use certificate_transparency.Prelude.Int.{ℤ, pos, negsuc, ltz}
use certificate_transparency.Prelude.Int64.{uint64_of}
use certificate_transparency.Prelude.Outcome.{ok, err, >>=-eq-ok, ok_inj}
use certificate_transparency.Prelude.Text.{Text}
use certificate_transparency.Ctfe.Params.{parse_int, is_empty}
use certificate_transparency.Ctfe.Backend.{Handled, Rpc, from_rpc, or_status, or_missing}
use certificate_transparency.Ctfe.Calls.{
  or_status-eq-ok, from_rpc-eq-ok, or_missing-eq-ok, one_passed, tested,
}
use certificate_transparency.Ctfe.Bounds.{parse_int_bound}
use certificate_transparency.Ctfe.Audit.{
  check_audit_path, InclusionProof, InclusionResponse, get_proof_by_hash,
}
use certificate_transparency.Ctfe.Proofs.{AreHashes, tree_covers, check_audit_path-AreHashes}

-- An inclusion proof that a log answers with.
pub record IsInclusion (decode : Text → Option (List ℕ))
    (backend : List ℕ → ℤ → Rpc InclusionResponse) (hash tree_size_val : Text)
    (proof : InclusionProof) : Type 0 where
  pub leaf_hash : List ℕ
  pub tree_size : ℕ
  pub size : ℕ
  pub others : List InclusionProof
  pub is_hash : decode hash ≡ some leaf_hash
  pub is_tree_size : parse_int tree_size_val ≡ ok (pos tree_size)
  pub is_positive : 0 < tree_size
  pub is_covered : tree_size ≤ size
  pub is_answer :
      backend leaf_hash (pos tree_size)
      ≡ ok (record { proofs = proof ∷ others; tree_size = some size })
  pub are_hashes : AreHashes proof.hashes

positive_lem : (t : ℤ) → ltz t (pos 1) ≡ false → (n : ℕ) × (t ≡ pos n) × (0 < n)
positive_lem (pos n) h = (n, refl, ground arith)
positive_lem (negsuc n) h = cc

-- The first of the proofs.
first_checked :
    (proofs : List InclusionProof) (proof : InclusionProof)
    → ◌≡◌ {A = Handled InclusionProof}
        (elim proofs [
          | [] ↦ err 404
          | ◌∷◌ p ps ↦ if check_audit_path p.hashes then ok p else err 500
        ])
        (ok proof)
    → (others : List InclusionProof) × (proofs ≡ proof ∷ others) × AreHashes proof.hashes
first_checked [] proof h = cc
first_checked (p ∷ ps) proof h =
    let (good, h1) = tested (check_audit_path p.hashes) 500 (ok p) proof h in
    let same : p ≡ proof = ok_inj h1 in
    (
      ps,
      ap (λ (q : InclusionProof). q ∷ ps) same,
      subst (λ (q : InclusionProof). AreHashes q.hashes) same
          (check_audit_path-AreHashes p.hashes good),
    )

-- The inclusion proofs that get-proof-by-hash answers with, whatever the backend does: the hash is
-- decoded, the size of the tree is a positive number, and the proof is the first that the backend
-- gave for them, with a tree at least as big, and its hashes have 32 bytes each.
pub get_proof_by_hash-IsInclusion :
    (decode : Text → Option (List ℕ)) (backend : List ℕ → ℤ → Rpc InclusionResponse)
    (hash tree_size_val : Text) (proof : InclusionProof)
    → get_proof_by_hash decode backend hash tree_size_val ≡ ok proof
    → IsInclusion decode backend hash tree_size_val proof
unfolding get_proof_by_hash
get_proof_by_hash-IsInclusion decode backend hash tree_size_val proof h =
    let (filled, h1) = one_passed (is_empty hash) 400 _ proof h in
    let (leaf_hash, decoded, h2) = >>=-eq-ok (or_missing 400 (decode hash)) _ h1 in
    let (tree_size, sized, h3) = >>=-eq-ok (or_status 400 (parse_int tree_size_val)) _ h2 in
    let (positive, h4) = one_passed (ltz tree_size (pos 1)) 400 _ proof h3 in
    let (rsp, answered, h5) = >>=-eq-ok (from_rpc (backend leaf_hash tree_size)) _ h4 in
    let (size, is_size, h6) = >>=-eq-ok (or_missing 500 rsp.tree_size) _ h5 in
    let (in_tree, h7) = one_passed (ltb size (uint64_of tree_size)) 404 _ proof h6 in
    let (others, are_proofs, good) = first_checked rsp.proofs proof h7 in
    let (n, natural, at_least) = positive_lem tree_size positive in
    let is_number : parse_int tree_size_val ≡ ok (pos n) =
      or_status-eq-ok 400 (parse_int tree_size_val) tree_size sized ∙ ap ok natural in
    record {
      leaf_hash = leaf_hash;
      tree_size = n;
      size = size;
      others = others;
      is_hash = or_missing-eq-ok 400 (decode hash) leaf_hash decoded;
      is_tree_size = is_number;
      is_positive = at_least;
      is_covered =
          tree_covers size n (parse_int_bound tree_size_val n is_number)
            (sym (ap (λ (t : ℤ). ltb size (uint64_of t)) natural) ∙ in_tree);
      is_answer =
          ap (backend leaf_hash) (sym natural)
          ∙ from_rpc-eq-ok (backend leaf_hash tree_size) rsp answered
          ∙ ap₂
              (λ (p : List InclusionProof) (t : Option ℕ).
                ok (record { proofs = p; tree_size = t }))
              are_proofs (or_missing-eq-ok 500 rsp.tree_size size is_size);
      are_hashes = good;
    }
