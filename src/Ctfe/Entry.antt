-- ===== src/Ctfe/Entry.antt =====
-- trillian/ctfe/handlers.go: the entries that a log answers with their proof.
use certificate_transparency.Prelude.{
  ℕ, ◌≡◌, ◌≢◌, ◌≤◌, ◌<◌, refl, subst, sym, false, ◌&&◌, some, ltb, ◌==◌, length, arith,
}
use certificate_transparency.Prelude.Int.{ℤ, pos, negsuc, ltz}
use certificate_transparency.Prelude.Int64.{uint64_of, lez}
use certificate_transparency.Prelude.Outcome.{ok, >>=-eq-ok, ok_inj}
use certificate_transparency.Prelude.Text.{Text}
use certificate_transparency.Ctfe.Params.{
  parse_int, parse_get_entry_and_proof_params, empty_tree, negative, out_of_tree,
}
use certificate_transparency.Ctfe.Backend.{Rpc, LogLeaf, from_rpc, or_status, or_missing}
use certificate_transparency.Ctfe.Calls.{
  or_status-eq-ok, from_rpc-eq-ok, or_missing-eq-ok, one_passed,
}
use certificate_transparency.Ctfe.Bounds.{parse_int_bound}
use certificate_transparency.Ctfe.Proofs.{tree_covers}
use certificate_transparency.Ctfe.Audit.{
  Hashes, EntryAndProofResponse, EntryAndProof, entry_and_proof, get_entry_and_proof,
}

-- The parameters are an index and the size of a tree that has it.
abbrev AreParams : Text → Text → ℤ × ℤ → Type 0
AreParams leaf_index_val tree_size_val r =
    (i : ℕ) × (t : ℕ) × (r ≡ (pos i, pos t))
    × (parse_int leaf_index_val ≡ ok (pos i))
    × (parse_int tree_size_val ≡ ok (pos t))
    × (i < t)

params-AreParams :
    (leaf_index_val tree_size_val : Text) (r : ℤ × ℤ)
    → parse_get_entry_and_proof_params leaf_index_val tree_size_val ≡ ok r
    → AreParams leaf_index_val tree_size_val r
unfolding parse_get_entry_and_proof_params
params-AreParams leaf_index_val tree_size_val r h =
    let (index, is_index, h1) = >>=-eq-ok (parse_int leaf_index_val) _ h in
    let (size, is_size, h2) = >>=-eq-ok (parse_int tree_size_val) _ h1 in
    let (not_empty, h3) = one_passed (lez size (pos 0)) empty_tree _ r h2 in
    let (natural, h4) = one_passed (ltz index (pos 0)) negative _ r h3 in
    let (within, h5) = one_passed (lez size index) out_of_tree _ r h4 in
    go index size is_index is_size natural within (ok_inj h5)
  where
    go :
        (index size : ℤ)
        → parse_int leaf_index_val ≡ ok index
        → parse_int tree_size_val ≡ ok size
        → ltz index (pos 0) ≡ false
        → lez size index ≡ false
        → (index, size) ≡ r
        → AreParams leaf_index_val tree_size_val r
    go (pos i) (pos t) is_index is_size natural within e =
        (i, t, sym e, is_index, is_size, ground arith)
    go (pos i) (negsuc t) is_index is_size natural within e = cc
    go (negsuc i) size is_index is_size natural within e = cc

-- An entry that a log answers with, of the parameters and the backend.
pub record IsEntry (backend : ℤ → ℤ → Rpc EntryAndProofResponse)
    (leaf_index_val tree_size_val : Text) (answer : EntryAndProof) : Type 0 where
  pub index : ℕ
  pub tree_size : ℕ
  pub rsp : EntryAndProofResponse
  pub leaf : LogLeaf
  pub size : ℕ
  pub is_index : parse_int leaf_index_val ≡ ok (pos index)
  pub is_tree_size : parse_int tree_size_val ≡ ok (pos tree_size)
  pub is_in_tree : index < tree_size
  pub is_covered : tree_size ≤ size
  pub is_answered : backend (pos index) (pos tree_size) ≡ ok rsp
  pub is_size : rsp.tree_size ≡ some size
  pub is_leaf : rsp.leaf ≡ some leaf
  pub is_proof : rsp.proof ≡ some answer.audit_path
  pub is_input : answer.leaf_input ≡ leaf.leaf_value
  pub is_extra : answer.extra_data ≡ leaf.extra_data
  pub is_filled : length leaf.leaf_value ≢ 0
  pub has_path : 1 < tree_size → length answer.audit_path ≢ 0

-- The two checks on a leaf and a proof.
entry_lem :
    (t : ℕ) (leaf : LogLeaf) (hashes : Hashes) (answer : EntryAndProof)
    → entry_and_proof (pos t) leaf hashes ≡ ok answer
    → (length leaf.leaf_value ≢ 0)
      × (1 < t → length hashes ≢ 0)
      × (record { leaf_input = leaf.leaf_value; extra_data = leaf.extra_data; audit_path = hashes }
          ≡ answer)
unfolding entry_and_proof
entry_lem t leaf hashes answer h =
    let (filled, h1) = one_passed (length leaf.leaf_value == 0) 500 _ answer h in
    let (has_path, h2) = one_passed (ltz (pos 1) (pos t) && (length hashes == 0)) 500 _ answer h1 in
    (λ e. ground arith, λ big e. ground arith, ok_inj h2)

-- The entries that get-entry-and-proof answers with, whatever the backend does: the parameters are
-- an index and a size with the index in a tree of that size, the entry and the proof are those that
-- the backend gave for them, with a tree at least as big, the leaf is not empty, and neither is the
-- proof where the size is more than 1.
pub get_entry_and_proof-IsEntry :
    (backend : ℤ → ℤ → Rpc EntryAndProofResponse) (leaf_index_val tree_size_val : Text)
    (answer : EntryAndProof)
    → get_entry_and_proof backend leaf_index_val tree_size_val ≡ ok answer
    → IsEntry backend leaf_index_val tree_size_val answer
unfolding get_entry_and_proof
get_entry_and_proof-IsEntry backend leaf_index_val tree_size_val answer h =
    let (r, is_r, h1) =
      >>=-eq-ok (or_status 400 (parse_get_entry_and_proof_params leaf_index_val tree_size_val)) _
        h in
    let (i, t, same, is_index, is_tree_size, within) =
      params-AreParams leaf_index_val tree_size_val r (
        or_status-eq-ok 400 (parse_get_entry_and_proof_params leaf_index_val tree_size_val) r
          is_r) in
    let (rsp, answered, h2) = >>=-eq-ok (from_rpc (backend (pos i) (pos t))) _ (rw same at h1) in
    let (size, sized, h3) = >>=-eq-ok (or_missing 500 rsp.tree_size) _ h2 in
    let (in_tree, h4) = one_passed (ltb size (uint64_of (pos t))) 400 _ answer h3 in
    let (leaf, is_leaf, h5) = >>=-eq-ok (or_missing 500 rsp.leaf) _ h4 in
    let (hashes, is_proof, h6) = >>=-eq-ok (or_missing 500 rsp.proof) _ h5 in
    let (filled, has_path, is_answer) = entry_lem t leaf hashes answer h6 in
    subst (IsEntry backend leaf_index_val tree_size_val) is_answer (record {
      index = i;
      tree_size = t;
      rsp = rsp;
      leaf = leaf;
      size = size;
      is_index = is_index;
      is_tree_size = is_tree_size;
      is_in_tree = within;
      is_covered = tree_covers size t (parse_int_bound tree_size_val t is_tree_size) in_tree;
      is_answered = from_rpc-eq-ok (backend (pos i) (pos t)) rsp answered;
      is_size = or_missing-eq-ok 500 rsp.tree_size size sized;
      is_leaf = or_missing-eq-ok 500 rsp.leaf leaf is_leaf;
      is_proof = or_missing-eq-ok 500 rsp.proof hashes is_proof;
      is_input = refl;
      is_extra = refl;
      is_filled = filled;
      has_path = has_path;
    })
