-- ===== src/Multilog/Shards.antt =====
-- client/multilog.go: interval, shardInterval, NewTemporalLogClient and IndexByDate.
use certificate_transparency.Prelude.{
  ℕ, ◌+◌, Bool, false, not, List, [], ◌∷◌, Option, none, some, if◌then◌else◌,
}
use certificate_transparency.Prelude.Int.{ℤ, ltz, eqz}
use certificate_transparency.Prelude.Outcome.{Outcome, ok, err, ◌>>=◌}
use certificate_transparency.Prelude.Text.{Text}

-- Instants are numbers, in the order of time. An absent bound is `none`.
pub record Interval : Type 0 where
  pub lower : Option ℤ
  pub upper : Option ℤ

pub data MultilogError : Type 0 where
  empty_config bad_start bad_limit inverted_interval no_upper_bound no_lower_bound : MultilogError
  not_adjacent no_client : MultilogError
  missing_chain bad_certificate no_log_found log_failed : MultilogError

abbrev pub Result {ℓ} : Type ℓ → Type ℓ
Result A = Outcome MultilogError A

-- The configuration of a shard, generated from client/configpb; `T` is its type of timestamps.
pub record LogShardConfig (T : Type 0) : Type 0 where
  pub uri : Text
  pub public_key_der : List ℕ
  pub not_after_start : Option T
  pub not_after_limit : Option T

pub record TemporalLogClient (C : Type 0) : Type 0 where
  pub clients : List C
  pub intervals : List Interval

-- Whether two bounds, where both are there, are the wrong way round or the same.
abbrev pub is_inverted : Option ℤ → Option ℤ → Bool
is_inverted (some lower) (some upper) = not (ltz lower upper)
is_inverted _ _ = false

-- The checks on a shard that extends an overall interval with this upper bound.
unfoldable pub extend_interval : Option ℤ → Interval → Result Interval
extend_interval none i = err no_upper_bound
extend_interval (some upper) i = elim i.lower [
  | none ↦ err no_lower_bound
  | some lower ↦ if eqz lower upper then ok i else err not_adjacent
]

-- The parameter is `ptypes.Timestamp`.
module _ {T : Type 0} (timestamp : T → Option ℤ) where
  abbrev pub parse_bound : MultilogError → Option T → Result (Option ℤ)
  parse_bound bad none = ok none
  parse_bound bad (some t) = elim (timestamp t) [ none ↦ err bad | some at ↦ ok (some at) ]

  -- `shardInterval`.
  unfoldable pub shard_interval : LogShardConfig T → Result Interval
  shard_interval cfg = do
    lower ← parse_bound bad_start cfg.not_after_start
    upper ← parse_bound bad_limit cfg.not_after_limit
    if is_inverted lower upper
        then err inverted_interval
        else ok (record { lower = lower; upper = upper })

  -- The loop over the shards after the first.
  unfoldable pub extend_intervals : Option ℤ → List (LogShardConfig T) → Result (List Interval)
  unfolding shard_interval extend_interval
  extend_intervals upper [] = ok []
  extend_intervals upper (cfg ∷ cfgs) = do
    i ← shard_interval cfg
    j ← extend_interval upper i
    rest ← extend_intervals j.upper cfgs
    ok (j ∷ rest)

-- The parameter is `New`, which makes the client of a log.
module _ {T C : Type 0} (new : Text → List ℕ → Option C) where
  -- The loop that makes the clients.
  unfoldable pub new_clients : List (LogShardConfig T) → Result (List C)
  new_clients [] = ok []
  new_clients (cfg ∷ cfgs) = elim (new cfg.uri cfg.public_key_der) [
    | none ↦ err no_client
    | some c ↦ do rest ← new_clients cfgs; ok (c ∷ rest)
  ]

module _ {T C : Type 0} (timestamp : T → Option ℤ) (new : Text → List ℕ → Option C) where
  -- `NewTemporalLogClient`.
  unfoldable pub new_temporal_log_client : List (LogShardConfig T) → Result (TemporalLogClient C)
  unfolding extend_intervals new_clients
  new_temporal_log_client [] = err empty_config
  new_temporal_log_client (cfg ∷ cfgs) = do
    overall ← shard_interval timestamp cfg
    rest ← extend_intervals timestamp overall.upper cfgs
    clients ← new_clients new (cfg ∷ cfgs)
    ok (record { clients = clients; intervals = overall ∷ rest })

-- The two tests that IndexByDate passes over an interval by.
abbrev pub is_before_lower : ℤ → Option ℤ → Bool
is_before_lower when none = false
is_before_lower when (some lower) = ltz when lower

abbrev pub is_past_upper : ℤ → Option ℤ → Bool
is_past_upper when none = false
is_past_upper when (some upper) = not (ltz when upper)

-- `IndexByDate`, from an index on.
unfoldable pub index_from : ℕ → List Interval → ℤ → Result ℕ
index_from n [] when = err no_log_found
index_from n (i ∷ is) when =
    let rest = index_from (n + 1) is when in
    if is_before_lower when i.lower then rest else if is_past_upper when i.upper then rest else ok n

unfoldable pub index_by_date : List Interval → ℤ → Result ℕ
unfolding index_from
index_by_date intervals when = index_from 0 intervals when
