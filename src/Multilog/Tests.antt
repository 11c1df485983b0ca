-- ===== src/Multilog/Tests.antt =====
-- client/multilog.go: a temporal log of two shards, and the theorems on it.
use certificate_transparency.Prelude.{
  ℕ, ◌≡◌, ◌↔◌, refl, false, List, [], ◌∷◌, map, Option, none, some,
}
use certificate_transparency.Prelude.Int.{ℤ, pos}
use certificate_transparency.Prelude.Outcome.{ok, err}
use certificate_transparency.Prelude.Text.{Text, codes}
use certificate_transparency.Ct.Types.{x509_log_entry_type, precert_log_entry_type}
use certificate_transparency.Submission.State.{has_text}
use certificate_transparency.Submission.Needs.{IsDistinct}
use certificate_transparency.Multilog.Shards.{
  LogShardConfig, TemporalLogClient, Result, not_adjacent, no_log_found, is_before_lower,
  is_past_upper, new_temporal_log_client, index_by_date,
}
use certificate_transparency.Multilog.Calls.{add_chain, add_pre_chain, get_accepted_roots}
use certificate_transparency.Multilog.Contiguous.{IsAt, first_lower, last_upper}
use certificate_transparency.Multilog.Made.{index_by_date_iff}
use certificate_transparency.Multilog.Dispatch.{IsDispatched, add_chain-IsDispatched}
use certificate_transparency.Multilog.Roots.{is_offered, get_accepted_roots-IsUnion}

abbrev timestamp : ℕ → Option ℤ
timestamp t = some (pos t)

-- A client is the address of its log.
abbrev new : Text → List ℕ → Option Text
new uri key = some uri

abbrev shard : Text → Option ℕ → Option ℕ → LogShardConfig ℕ
shard uri start limit = record {
  uri = uri;
  public_key_der = [];
  not_after_start = start;
  not_after_limit = limit;
}

abbrev shards : List (LogShardConfig ℕ)
shards = shard (codes "a") (some 10) (some 20) ∷ shard (codes "b") (some 20) none ∷ []

abbrev client : TemporalLogClient Text
client = record {
  clients = codes "a" ∷ codes "b" ∷ [];
  intervals =
      record { lower = some (pos 10); upper = some (pos 20) }
      ∷ record { lower = some (pos 20); upper = none }
      ∷ [];
}

made : new_temporal_log_client timestamp new shards ≡ ok client
unfolding new_temporal_log_client
made = refl

gap :
    new_temporal_log_client timestamp new
      (shard (codes "a") none (some 20) ∷ shard (codes "b") (some 21) none ∷ [])
    ≡ err not_adjacent
unfolding new_temporal_log_client
gap = refl

limit_is_next : index_by_date client.intervals (pos 20) ≡ ok 1
unfolding index_by_date
limit_is_next = refl

index_by_date_iff_example :
    ((n : ℕ) → (index_by_date client.intervals (pos 20) ≡ ok n) ↔ IsAt client.intervals (pos 20) n)
    × (is_before_lower (pos 20) (first_lower client.intervals) ≡ false
        → is_past_upper (pos 20) (last_upper none client.intervals) ≡ false
        → (n : ℕ) × (index_by_date client.intervals (pos 20) ≡ ok n))
index_by_date_iff_example = index_by_date_iff timestamp new shards client made (pos 20)

-- A certificate is its expiry date, and a log answers with its address.
abbrev parse_certificate : List ℕ → Option ℤ
parse_certificate [] = none
parse_certificate (x ∷ xs) = some (pos x)

abbrev retry : Text → ℕ → Text → List (List ℕ) → Result Text
retry uri ctype path chain = ok uri

abbrev chain : List (List ℕ)
chain = (25 ∷ []) ∷ []

sent_to_b : add_chain parse_certificate retry client chain ≡ ok (codes "b")
unfolding add_chain
sent_to_b = refl

too_early : add_pre_chain parse_certificate retry client ((5 ∷ []) ∷ []) ≡ err no_log_found
unfolding add_pre_chain
too_early = refl

add_chain-IsDispatched_example :
    IsDispatched parse_certificate retry client x509_log_entry_type
      (codes "/ct/v1/add-chain")
      chain
      (add_chain parse_certificate retry client chain)
    × IsDispatched parse_certificate retry client precert_log_entry_type
        (codes "/ct/v1/add-pre-chain")
        chain
        (add_pre_chain parse_certificate retry client chain)
add_chain-IsDispatched_example =
    add_chain-IsDispatched timestamp new parse_certificate retry shards client chain made

abbrev sum256 : List ℕ → List ℕ
sum256 root = root

abbrev results : List (Option (List (List ℕ)))
results = some ((1 ∷ []) ∷ (2 ∷ []) ∷ []) ∷ some ((2 ∷ []) ∷ (3 ∷ []) ∷ []) ∷ []

abbrev union : List (List ℕ)
union = (1 ∷ []) ∷ (2 ∷ []) ∷ (3 ∷ []) ∷ []

united : get_accepted_roots sum256 results ≡ some union
unfolding get_accepted_roots
united = refl

get_accepted_roots-IsUnion_example :
    IsDistinct (map sum256 union)
    × ((h : Text) → has_text h (map sum256 union) ≡ is_offered sum256 h results)
get_accepted_roots-IsUnion_example = get_accepted_roots-IsUnion sum256 results union united
