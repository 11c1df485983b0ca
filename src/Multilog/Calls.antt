-- ===== src/Multilog/Calls.antt =====
-- client/multilog.go: addChain, AddChain, AddPreChain and GetAcceptedRoots.
use certificate_transparency.Prelude.{
  ℕ, List, [], ◌∷◌, ◌++◌, Option, none, some, if◌then◌else◌, get_elem?,
}
use certificate_transparency.Prelude.Int.{ℤ}
use certificate_transparency.Prelude.Outcome.{err, panic, ◌>>=◌}
use certificate_transparency.Prelude.Text.{Text, codes}
use certificate_transparency.Ct.Types.{x509_log_entry_type, precert_log_entry_type}
use certificate_transparency.Submission.State.{has_text}
use certificate_transparency.Multilog.Shards.{
  TemporalLogClient, Result, missing_chain, bad_certificate, index_by_date,
}

-- The parameters are `x509.ParseCertificate`, of which the expiry date is read and whose every error
-- counts, and the method `addChainWithRetry` of a client.
module _ {C R : Type 0} (parse_certificate : List ℕ → Option ℤ)
    (add_chain_with_retry : C → ℕ → Text → List (List ℕ) → Result R) where
  -- `addChain`.
  unfoldable pub add_chain_of : TemporalLogClient C → ℕ → Text → List (List ℕ) → Result R
  unfolding index_by_date
  add_chain_of tlc ctype path [] = err missing_chain
  add_chain_of tlc ctype path (first ∷ rest) = elim (parse_certificate first) [
    | none ↦ err bad_certificate
    | some not_after ↦ do
      cidx ← index_by_date tlc.intervals not_after
      elim (get_elem? tlc.clients cidx) [
        | none ↦ panic
        | some c ↦ add_chain_with_retry c ctype path (first ∷ rest)
      ]
  ]

  -- `AddChain` and `AddPreChain`.
  unfoldable pub add_chain : TemporalLogClient C → List (List ℕ) → Result R
  unfolding add_chain_of
  add_chain tlc chain = add_chain_of tlc x509_log_entry_type (codes "/ct/v1/add-chain") chain

  unfoldable pub add_pre_chain : TemporalLogClient C → List (List ℕ) → Result R
  unfolding add_chain_of
  add_pre_chain tlc chain =
      add_chain_of tlc precert_log_entry_type (codes "/ct/v1/add-pre-chain") chain

-- The hashes that were seen, and the roots that were kept.
pub record Roots : Type 0 where
  pub seen : List Text
  pub all : List (List ℕ)

module _ (sum256 : List ℕ → List ℕ) where
  -- The body of the inner loop.
  unfoldable pub add_root : List ℕ → Roots → Roots
  unfolding has_text
  add_root root rs =
      if has_text (sum256 root) rs.seen
      then rs
      else record { seen = sum256 root ∷ rs.seen; all = rs.all ++ (root ∷ []) }

  unfoldable pub add_roots : List (List ℕ) → Roots → Roots
  unfolding add_root
  add_roots [] rs = rs
  add_roots (root ∷ roots) rs = add_roots roots (add_root root rs)

  -- The loop over the results of the clients, in the order in which they come.
  unfoldable pub union_roots : List (Option (List (List ℕ))) → Roots → Option (List (List ℕ))
  unfolding add_roots
  union_roots [] rs = some rs.all
  union_roots (none ∷ results) rs = none
  union_roots (some roots ∷ results) rs = union_roots results (add_roots roots rs)

  -- `GetAcceptedRoots`.
  unfoldable pub get_accepted_roots : List (Option (List (List ℕ))) → Option (List (List ℕ))
  unfolding union_roots
  get_accepted_roots results = union_roots results (record { seen = []; all = [] })
