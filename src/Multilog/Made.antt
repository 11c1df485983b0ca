-- ===== src/Multilog/Made.antt =====
-- client/multilog.go: the shards of a client that was made.
use certificate_transparency.Prelude.{
  ℕ, suc, ◌≡◌, refl, ap, subst, sym, ◌∙◌, ◌↔◌, inl, inr, false, List, [], ◌∷◌, Option, none, some,
  if◌then◌else◌, Bool-cases, Option-cases, length, arith,
}
use certificate_transparency.Prelude.Int.{ℤ, eqz, eqz→eq}
use certificate_transparency.Prelude.Outcome.{ok, err, >>=-eq-ok, ok_inj, err-ne_ok}
use certificate_transparency.Prelude.Text.{Text}
use certificate_transparency.Multilog.Shards.{
  Interval, LogShardConfig, TemporalLogClient, is_inverted, is_before_lower, is_past_upper,
  shard_interval, extend_interval, extend_intervals, parse_bound, bad_start, bad_limit,
  no_lower_bound, not_adjacent, new_clients, new_temporal_log_client, index_by_date,
}
use certificate_transparency.Multilog.Contiguous.{
  IsContiguous, IsRow, IsAt, first_lower, last_upper, index_from-found, enclosed-total,
  index_by_date-IsAt,
}

extend_interval-eq-ok :
    (upper : Option ℤ) (i j : Interval)
    → extend_interval upper i ≡ ok j
    → (j ≡ i) × ((at : ℤ) × (upper ≡ some at) × (i.lower ≡ some at))
unfolding extend_interval
extend_interval-eq-ok none i j h = cc
extend_interval-eq-ok (some at) i j h = go i.lower refl h
  where
    go :
        (o : Option ℤ)
        → i.lower ≡ o
        → (elim o [
          | none ↦ err no_lower_bound
          | some lower ↦ if eqz lower at then ok i else err not_adjacent
        ])
          ≡ ok j
        → (j ≡ i) × ((x : ℤ) × (some at ≡ some x) × (i.lower ≡ some x))
    go none is_lower e = cc
    go (some lower) is_lower e = elim (Bool-cases (eqz lower at)) [
      | inl same ↦
          (sym (ok_inj (rw same at e)), (at, refl, is_lower ∙ ap some (eqz→eq lower at same)))
      | inr apart ↦ absurd (err-ne_ok (rw apart at e))
    ]

module _ {T : Type 0} (timestamp : T → Option ℤ) where
  shard_interval-eq-ok :
      (cfg : LogShardConfig T) (i : Interval)
      → shard_interval timestamp cfg ≡ ok i
      → is_inverted i.lower i.upper ≡ false
  unfolding shard_interval
  shard_interval-eq-ok cfg i h =
      let (lower, is_lower, h1) =
        >>=-eq-ok (parse_bound timestamp bad_start cfg.not_after_start) _ h in
      let (upper, is_upper, h2) =
        >>=-eq-ok (parse_bound timestamp bad_limit cfg.not_after_limit) _ h1 in
      elim (Bool-cases (is_inverted lower upper)) [
        | inl inverted ↦ absurd (err-ne_ok (rw inverted at h2))
        | inr forward ↦
            subst (λ (k : Interval). is_inverted k.lower k.upper ≡ false)
              (ok_inj (rw forward at h2)) forward
      ]

  extend_intervals-eq-ok :
      (cfgs : List (LogShardConfig T)) (upper : Option ℤ) (is : List Interval)
      → extend_intervals timestamp upper cfgs ≡ ok is
      → IsContiguous upper is × (length is ≡ length cfgs)
  unfolding extend_intervals
  extend_intervals-eq-ok [] upper is h = rw (sym (ok_inj h)) (tt, refl)
  extend_intervals-eq-ok (cfg ∷ cfgs) upper is h =
      let (i, is_i, h1) = >>=-eq-ok _ _ h in
      let (j, is_j, h2) = >>=-eq-ok _ _ h1 in
      let (rest, is_rest, h3) = >>=-eq-ok _ _ h2 in
      let (same, (at, u, l)) = extend_interval-eq-ok upper i j is_j in
      let (follows, long) = extend_intervals-eq-ok cfgs j.upper rest is_rest in
      let forward = shard_interval-eq-ok cfg i is_i in
      rw (sym (ok_inj h3), same) ((at, u, l, forward, rw same at follows), ap suc long)

module _ {T C : Type 0} (new : Text → List ℕ → Option C) where
  length-new_clients :
      (cfgs : List (LogShardConfig T)) (cs : List C)
      → new_clients new cfgs ≡ ok cs
      → length cs ≡ length cfgs
  unfolding new_clients
  length-new_clients [] cs h = ap length (sym (ok_inj h))
  length-new_clients (cfg ∷ cfgs) cs h = elim (Option-cases (new cfg.uri cfg.public_key_der)) [
    | inl failed ↦ absurd (err-ne_ok (rw (failed, new_clients) at h))
    | inr (c, made) ↦
        let (rest, is_rest, same) =
          >>=-eq-ok (new_clients new cfgs) _ (rw (made, new_clients) at h) in
        ap length (sym (ok_inj same)) ∙ ap suc (length-new_clients cfgs rest is_rest)
  ]

module _ {T C : Type 0} (timestamp : T → Option ℤ) (new : Text → List ℕ → Option C) where
  -- The intervals of a client that was made follow on one another, and each has a client.
  pub new_temporal_log_client-IsRow :
      (cfgs : List (LogShardConfig T)) (tlc : TemporalLogClient C)
      → new_temporal_log_client timestamp new cfgs ≡ ok tlc
      → IsRow tlc.intervals × (length tlc.intervals ≡ length tlc.clients)
  unfolding new_temporal_log_client
  new_temporal_log_client-IsRow [] tlc h = absurd (err-ne_ok h)
  new_temporal_log_client-IsRow (cfg ∷ cfgs) tlc h =
      let (overall, is_overall, h1) = >>=-eq-ok (shard_interval timestamp cfg) _ h in
      let (rest, is_rest, h2) = >>=-eq-ok (extend_intervals timestamp overall.upper cfgs) _ h1 in
      let (clients, is_clients, h3) = >>=-eq-ok (new_clients new (cfg ∷ cfgs)) _ h2 in
      let (follows, long) = extend_intervals-eq-ok timestamp cfgs overall.upper rest is_rest in
      rw (sym (ok_inj h3)) (
        (shard_interval-eq-ok timestamp cfg overall is_overall, follows),
        ap suc long ∙ sym (length-new_clients new (cfg ∷ cfgs) clients is_clients),
      )

  -- Where a temporal log's client is made, its shards part the dates: for each date, IndexByDate
  -- returns a shard exactly where the date is in that shard's interval, so that the date is in no
  -- other, and it returns one for every date from the start of the first shard to the end of the
  -- last.
  pub index_by_date_iff :
      (cfgs : List (LogShardConfig T)) (tlc : TemporalLogClient C)
      → new_temporal_log_client timestamp new cfgs ≡ ok tlc
      → (when : ℤ)
      → ((n : ℕ) → (index_by_date tlc.intervals when ≡ ok n) ↔ IsAt tlc.intervals when n)
        × (is_before_lower when (first_lower tlc.intervals) ≡ false
            → is_past_upper when (last_upper none tlc.intervals) ≡ false
            → (n : ℕ) × (index_by_date tlc.intervals when ≡ ok n))
  unfolding index_by_date
  index_by_date_iff cfgs tlc made when =
      let (row, long) = new_temporal_log_client-IsRow cfgs tlc made in
      (
        (λ n. (index_by_date-IsAt tlc.intervals when n, found tlc.intervals when n row)),
        total tlc.intervals when row,
      )
    where
      found :
          (is : List Interval) (when : ℤ) (n : ℕ)
          → IsRow is
          → IsAt is when n
          → index_by_date is when ≡ ok n
      found is when n row (j, got, within) =
          index_from-found 0 n is when j row got within ∙ ap ok (omega arith)

      total :
          (is : List Interval) (when : ℤ)
          → IsRow is
          → is_before_lower when (first_lower is) ≡ false
          → is_past_upper when (last_upper none is) ≡ false
          → (n : ℕ) × (index_by_date is when ≡ ok n)
      total [] when row low high = absurd row
      total (i ∷ is) when (forward, row) low high =
          let (n, at) = enclosed-total i is when low row high in
          (n, found (i ∷ is) when n (forward, row) at)
