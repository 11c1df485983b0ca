-- ===== src/Multilog/Dispatch.antt =====
-- client/multilog.go: where a temporal log's client sends a chain.
use certificate_transparency.Prelude.{
  ℕ, zero, suc, ◌+◌, ◌≡◌, ◌<◌, ◌⊎◌, inl, inr, refl, ap, sym, ◌∙◌, List, [], ◌∷◌, Option, none, some,
  length, Option-cases, get_elem?, get_elem?-length, arith,
}
use certificate_transparency.Prelude.Int.{ℤ}
use certificate_transparency.Prelude.Outcome.{ok, err, panic, err-ne_ok}
use certificate_transparency.Prelude.Text.{Text, codes}
use certificate_transparency.Ct.Types.{x509_log_entry_type, precert_log_entry_type}
use certificate_transparency.Multilog.Shards.{
  Interval, LogShardConfig, TemporalLogClient, Result, missing_chain, bad_certificate, no_log_found,
  new_temporal_log_client, index_by_date, index_from,
}
use certificate_transparency.Multilog.Calls.{add_chain_of, add_chain, add_pre_chain}
use certificate_transparency.Multilog.Contiguous.{IsRow, IsAt, index_from-found, index_by_date-IsAt}
use certificate_transparency.Multilog.Made.{new_temporal_log_client-IsRow}

length-get_elem? {ℓ} :
    {A : Type ℓ} (n : ℕ) (xs : List A) (x : A) → get_elem? xs n ≡ some x → n < length xs
length-get_elem? n [] x h = cc
length-get_elem? zero (y ∷ ys) x h = omega arith
length-get_elem? (suc n) (y ∷ ys) x h = omega (arith, length-get_elem? n ys x h)

-- What IndexByDate returns where it fails.
index_from-fails :
    (m : ℕ) (is : List Interval) (when : ℤ)
    → (index_from m is when ≡ err no_log_found) ⊎ ((n : ℕ) × (index_from m is when ≡ ok n))
unfolding index_from
index_from-fails m [] when = inl refl
index_from-fails m (i ∷ is) when = ground (arith, index_from-fails (m + 1) is when)

module _ {C R : Type 0} (parse_certificate : List ℕ → Option ℤ)
    (retry : C → ℕ → Text → List (List ℕ) → Result R) where
  -- What a call comes to: an error that says why no log is asked, or what the log answers that is in
  -- the place of the interval with the expiry date of the first certificate.
  pub data IsDispatched (tlc : TemporalLogClient C) (ctype : ℕ) (path : Text)
      : List (List ℕ) → Result R → Type 0 where
    without_chain : IsDispatched tlc ctype path [] (err missing_chain)
    without_certificate :
        (first : List ℕ) (rest : List (List ℕ)) (r : Result R)
        → parse_certificate first ≡ none
        → r ≡ err bad_certificate
        → IsDispatched tlc ctype path (first ∷ rest) r
    without_log :
        (first : List ℕ) (rest : List (List ℕ)) (r : Result R) (not_after : ℤ)
        → parse_certificate first ≡ some not_after
        → ((n : ℕ) → IsAt tlc.intervals not_after n → ⊥)
        → r ≡ err no_log_found
        → IsDispatched tlc ctype path (first ∷ rest) r
    sent :
        (first : List ℕ) (rest : List (List ℕ)) (r : Result R) (not_after : ℤ) (n : ℕ) (c : C)
        → parse_certificate first ≡ some not_after
        → IsAt tlc.intervals not_after n
        → get_elem? tlc.clients n ≡ some c
        → r ≡ retry c ctype path (first ∷ rest)
        → IsDispatched tlc ctype path (first ∷ rest) r

  abbrev ask : ℕ → Text → List (List ℕ) → Option C → Result R
  ask ctype path chain none = panic
  ask ctype path chain (some c) = retry c ctype path chain

  add_chain_of-IsDispatched :
      (tlc : TemporalLogClient C) (ctype : ℕ) (path : Text) (chain : List (List ℕ))
      → IsRow tlc.intervals
      → length tlc.intervals ≡ length tlc.clients
      → IsDispatched tlc ctype path chain
          (add_chain_of parse_certificate retry tlc ctype path chain)
  unfolding add_chain_of index_by_date
  add_chain_of-IsDispatched tlc ctype path [] row paired = without_chain
  add_chain_of-IsDispatched tlc ctype path (first ∷ rest) row paired =
      elim (Option-cases (parse_certificate first)) [
        | inl bad ↦ without_certificate first rest _ bad (rw (bad, add_chain_of) refl)
        | inr (not_after, parsed) ↦ elim (index_from-fails 0 tlc.intervals not_after) [
          | inl absent ↦
              without_log first rest _ not_after parsed
                (λ n at.
                  err-ne_ok
                    (sym absent ∙ index_from-found 0 n tlc.intervals not_after at.0 row at.1 at.2))
                (rw (parsed, absent, add_chain_of) refl)
          | inr (n, found) ↦
              let (j, got, within) = index_by_date-IsAt tlc.intervals not_after n found in
              let (c, client) =
                get_elem?-length n tlc.clients
                  (omega (arith, paired, length-get_elem? n tlc.intervals j got)) in
              sent first rest _ not_after n c parsed (j, got, within) client
                (rw (parsed, found, add_chain_of) (ap (ask ctype path (first ∷ rest)) client))
        ]
      ]

-- A client that was made never reads past its logs: each of AddChain and AddPreChain sends the chain,
-- as it is and by the path of that call, to the log of the interval that has the expiry date of its
-- first certificate and returns what the log does; it fails without a call where the chain is empty,
-- its first certificate is not parsed, or no interval has that date.
pub add_chain-IsDispatched :
    {T C R : Type 0} (timestamp : T → Option ℤ) (new : Text → List ℕ → Option C)
    (parse_certificate : List ℕ → Option ℤ) (retry : C → ℕ → Text → List (List ℕ) → Result R)
    (cfgs : List (LogShardConfig T)) (tlc : TemporalLogClient C) (chain : List (List ℕ))
    → new_temporal_log_client timestamp new cfgs ≡ ok tlc
    → IsDispatched parse_certificate retry tlc x509_log_entry_type
        (codes "/ct/v1/add-chain")
        chain
        (add_chain parse_certificate retry tlc chain)
      × IsDispatched parse_certificate retry tlc precert_log_entry_type
          (codes "/ct/v1/add-pre-chain")
          chain
          (add_pre_chain parse_certificate retry tlc chain)
unfolding add_chain add_pre_chain
add_chain-IsDispatched timestamp new parse_certificate retry cfgs tlc chain made =
    let (row, paired) = new_temporal_log_client-IsRow timestamp new cfgs tlc made in
    (
      add_chain_of-IsDispatched parse_certificate retry tlc _ _ chain row paired,
      add_chain_of-IsDispatched parse_certificate retry tlc _ _ chain row paired,
    )
