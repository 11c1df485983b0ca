-- ===== src/Ctfe/Audit.antt =====
-- trillian/ctfe/handlers.go: getSTHConsistency, getProofByHash and getEntryAndProof.
use certificate_transparency.Prelude.{
  ℕ, Bool, true, false, ◌&&◌, List, [], ◌∷◌, Option, none, some, ltb, ◌==◌, length, if◌then◌else◌,
}
use certificate_transparency.Prelude.Int.{ℤ, pos, ltz, eqz}
use certificate_transparency.Prelude.Int64.{uint64_of}
use certificate_transparency.Prelude.Outcome.{ok, err, panic, ◌>>=◌}
use certificate_transparency.Prelude.Text.{Text}
use certificate_transparency.Ctfe.Params.{
  is_empty, parse_int, parse_get_sth_consistency_range, parse_get_entry_and_proof_params,
}
use certificate_transparency.Ctfe.Backend.{Handled, Rpc, LogLeaf, from_rpc, or_status, or_missing}

-- The hashes of a proof.
abbrev pub Hashes : Type 0
Hashes = List (List ℕ)

-- `checkAuditPath`.
unfoldable pub check_audit_path : Hashes → Bool
check_audit_path [] = true
check_audit_path (node ∷ nodes) =
    let rest = check_audit_path nodes in if length node == 32 then rest else false

pub record ConsistencyResponse : Type 0 where
  pub proof : Option Hashes
  pub tree_size : Option ℕ

-- `getSTHConsistency`: the hashes of the answer. A proof that is missing is read through.
unfoldable pub get_sth_consistency :
    (ℤ → ℤ → Rpc ConsistencyResponse) → Text → Text → Handled Hashes
unfolding parse_get_sth_consistency_range check_audit_path
get_sth_consistency backend first_val second_val = do
  r ← or_status 400 (parse_get_sth_consistency_range first_val second_val)
  if eqz r.0 (pos 0) then ok [] else (do
    rsp ← from_rpc (backend r.0 r.1)
    size ← or_missing 500 rsp.tree_size
    if ltb size (uint64_of r.1) then err 400 else elim rsp.proof [
      | none ↦ panic
      | some hashes ↦ if check_audit_path hashes then ok hashes else err 500
    ])

pub record InclusionProof : Type 0 where
  pub leaf_index : ℤ
  pub hashes : Hashes

pub record InclusionResponse : Type 0 where
  pub proofs : List InclusionProof
  pub tree_size : Option ℕ

-- `getProofByHash`; the parameter before the backend is base64 decoding.
unfoldable pub get_proof_by_hash :
    (Text → Option (List ℕ))
    → (List ℕ → ℤ → Rpc InclusionResponse)
    → Text
    → Text
    → Handled InclusionProof
unfolding parse_int check_audit_path
get_proof_by_hash decode_string backend hash tree_size_val = if is_empty hash then err 400 else (do
  leaf_hash ← or_missing 400 (decode_string hash)
  tree_size ← or_status 400 (parse_int tree_size_val)
  if ltz tree_size (pos 1) then err 400 else (do
    rsp ← from_rpc (backend leaf_hash tree_size)
    size ← or_missing 500 rsp.tree_size
    if ltb size (uint64_of tree_size) then err 404 else elim rsp.proofs [
      | [] ↦ err 404
      | ◌∷◌ proof proofs ↦ if check_audit_path proof.hashes then ok proof else err 500
    ]))

pub record EntryAndProofResponse : Type 0 where
  pub leaf : Option LogLeaf
  pub proof : Option Hashes
  pub tree_size : Option ℕ

pub record EntryAndProof : Type 0 where
  pub leaf_input : List ℕ
  pub extra_data : List ℕ
  pub audit_path : Hashes

-- The checks on a leaf and a proof that are there, and the answer.
unfoldable pub entry_and_proof : ℤ → LogLeaf → Hashes → Handled EntryAndProof
entry_and_proof tree_size leaf hashes =
    if length leaf.leaf_value == 0
    then err 500
    else if ltz (pos 1) tree_size && (length hashes == 0)
    then err 500
    else ok
        (record { leaf_input = leaf.leaf_value; extra_data = leaf.extra_data; audit_path = hashes })

-- `getEntryAndProof`.
unfoldable pub get_entry_and_proof :
    (ℤ → ℤ → Rpc EntryAndProofResponse) → Text → Text → Handled EntryAndProof
unfolding parse_get_entry_and_proof_params entry_and_proof
get_entry_and_proof backend leaf_index_val tree_size_val = do
  r ← or_status 400 (parse_get_entry_and_proof_params leaf_index_val tree_size_val)
  rsp ← from_rpc (backend r.0 r.1)
  size ← or_missing 500 rsp.tree_size
  if ltb size (uint64_of r.1) then err 400 else (do
    leaf ← or_missing 500 rsp.leaf
    hashes ← or_missing 500 rsp.proof
    entry_and_proof r.1 leaf hashes)
