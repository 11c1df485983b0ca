-- ===== src/Ctfe/AuditTests.antt =====
-- trillian/ctfe/handlers.go: requests for proofs, and the theorems on them.
use certificate_transparency.Prelude.{ℕ, ◌≡◌, refl, List, [], ◌∷◌, none, some}
use certificate_transparency.Prelude.Bytes.{be_bytes}
use certificate_transparency.Prelude.Int.{ℤ, pos}
use certificate_transparency.Prelude.Outcome.{ok, err, panic}
use certificate_transparency.Prelude.Text.{codes}
use certificate_transparency.Ctfe.Backend.{Rpc}
use certificate_transparency.Ctfe.Audit.{
  ConsistencyResponse, get_sth_consistency, InclusionProof, InclusionResponse, get_proof_by_hash,
  EntryAndProofResponse, EntryAndProof, get_entry_and_proof,
}
use certificate_transparency.Ctfe.Proofs.{IsConsistency, get_sth_consistency-IsConsistency}
use certificate_transparency.Ctfe.Inclusion.{IsInclusion, get_proof_by_hash-IsInclusion}
use certificate_transparency.Ctfe.Entry.{IsEntry, get_entry_and_proof-IsEntry}

abbrev hashes : List (List ℕ)
hashes = be_bytes 32 1 ∷ be_bytes 32 2 ∷ []

abbrev consistency : ℤ → ℤ → Rpc ConsistencyResponse
consistency first second = ok (record { proof = some hashes; tree_size = some 9 })

consistent : get_sth_consistency consistency (codes "3") (codes "7") ≡ ok hashes
unfolding get_sth_consistency be_bytes
consistent = refl

from_nothing : get_sth_consistency consistency (codes "0") (codes "7") ≡ ok []
unfolding get_sth_consistency
from_nothing = refl

too_big : get_sth_consistency consistency (codes "3") (codes "10") ≡ err 400
unfolding get_sth_consistency
too_big = refl

-- A proof that is missing is read through.
missing_proof :
    get_sth_consistency
      (λ first second. ok (record { proof = none; tree_size = some 9 }))
      (codes "3")
      (codes "7")
    ≡ panic
unfolding get_sth_consistency
missing_proof = refl

get_sth_consistency-IsConsistency_example : IsConsistency consistency (codes "3") (codes "7") hashes
get_sth_consistency-IsConsistency_example =
    get_sth_consistency-IsConsistency consistency (codes "3") (codes "7") hashes consistent

abbrev proof : InclusionProof
proof = record { leaf_index = pos 4; hashes = hashes }

abbrev inclusion : List ℕ → ℤ → Rpc InclusionResponse
inclusion leaf_hash size = ok (record { proofs = proof ∷ []; tree_size = some 9 })

included : get_proof_by_hash some inclusion (codes "AA") (codes "7") ≡ ok proof
unfolding get_proof_by_hash be_bytes
included = refl

no_tree : get_proof_by_hash some inclusion (codes "AA") (codes "0") ≡ err 400
unfolding get_proof_by_hash
no_tree = refl

get_proof_by_hash-IsInclusion_example : IsInclusion some inclusion (codes "AA") (codes "7") proof
get_proof_by_hash-IsInclusion_example =
    get_proof_by_hash-IsInclusion some inclusion (codes "AA") (codes "7") proof included

abbrev entry : EntryAndProof
entry = record { leaf_input = 1 ∷ []; extra_data = []; audit_path = (2 ∷ []) ∷ [] }

-- The length of the hashes is not checked here.
abbrev with_proof : ℤ → ℤ → Rpc EntryAndProofResponse
with_proof index size = ok (record {
  leaf = some (record { leaf_index = index; leaf_value = 1 ∷ []; extra_data = [] });
  proof = some ((2 ∷ []) ∷ []);
  tree_size = some 9;
})

entered : get_entry_and_proof with_proof (codes "4") (codes "7") ≡ ok entry
unfolding get_entry_and_proof
entered = refl

get_entry_and_proof-IsEntry_example : IsEntry with_proof (codes "4") (codes "7") entry
get_entry_and_proof-IsEntry_example =
    get_entry_and_proof-IsEntry with_proof (codes "4") (codes "7") entry entered
