-- ===== src/Ctfe/Single.antt =====
-- trillian/ctfe/config.go: what holds of a single configuration that is valid.
use certificate_transparency.Prelude.{
  ℕ, ◌≡◌, subst, true, false, ◌&&◌, List, [], Option, none, some, if◌then◌else◌, arith,
}
use certificate_transparency.Prelude.Int.{pos, ltz, eqz}
use certificate_transparency.Prelude.Outcome.{ok, err, >>=-eq-ok, ok_inj}
use certificate_transparency.Ct.Types.{SignedTreeHead}
use certificate_transparency.Ctfe.Calls.{one_passed}
use certificate_transparency.Ctfe.Config.{
  LogConfig, ValidatedLogConfig, Keys, check_public_key, check_private_key, read_time, is_before,
  check_delays, read_frozen_sth, key_usages_from, validate_log_config, bad_start, bad_limit,
  empty_log_id, limit_before_start, rejects_all,
}

module _ {T : Type 0} (keys : Keys T) where
  -- A mirror has a public key that is unmarshalled and no private key; another log has a private key
  -- that is.
  abbrev pub IsKeyedLog : LogConfig T → Type 0
  IsKeyedLog cfg =
      (cfg.is_mirror ≡ true
        → ((der : List ℕ) × (cfg.public_key ≡ some der) × (keys.unmarshal_public_key der ≡ true))
          × (cfg.private_key ≡ none))
      × (cfg.is_mirror ≡ false
          → (key : List ℕ) × (cfg.private_key ≡ some key) × (keys.unmarshal_any key ≡ true))

  -- The configuration and what its validation returns.
  pub record IsSound (cfg : LogConfig T) (v : ValidatedLogConfig) : Type 0 where
    pub has_id : eqz cfg.log_id (pos 0) ≡ false
    pub is_keyed : IsKeyedLog cfg
    pub accepts_some : cfg.reject_expired && cfg.reject_unexpired ≡ false
    pub is_window : is_before keys v.not_after_limit v.not_after_start ≡ false
    pub no_negative_mmd : ltz cfg.max_merge_delay_sec (pos 0) ≡ false
    pub no_negative_emd : ltz cfg.expected_merge_delay_sec (pos 0) ≡ false
    pub within_mmd : ltz cfg.max_merge_delay_sec cfg.expected_merge_delay_sec ≡ false
    pub is_frozen :
        (sth : SignedTreeHead)
        → v.frozen_sth ≡ some sth
        → (der : List ℕ) × (cfg.public_key ≡ some der) × (keys.verify_sth_signature der sth ≡ true)

  keyed_lem :
      (cfg : LogConfig T)
      → check_public_key keys cfg ≡ ok tt
      → check_private_key keys cfg ≡ ok tt
      → IsKeyedLog cfg
  keyed_lem cfg p q = ground arith

  delays_lem :
      (cfg : LogConfig T)
      → check_delays keys cfg ≡ ok tt
      → (ltz cfg.max_merge_delay_sec (pos 0) ≡ false)
        × (ltz cfg.expected_merge_delay_sec (pos 0) ≡ false)
        × (ltz cfg.max_merge_delay_sec cfg.expected_merge_delay_sec ≡ false)
  delays_lem cfg h = ground arith

  frozen_lem :
      (cfg : LogConfig T) (o : Option SignedTreeHead) (sth : SignedTreeHead)
      → read_frozen_sth keys cfg ≡ ok o
      → o ≡ some sth
      → check_public_key keys cfg ≡ ok tt
      → (der : List ℕ) × (cfg.public_key ≡ some der) × (keys.verify_sth_signature der sth ≡ true)
  frozen_lem cfg o sth h is_some p = ground arith

  -- A configuration that is accepted has a tree ID that is not 0 and does not reject all
  -- certificates; a mirror has a public key that is read and no private key, another log a private
  -- key that is read; the end of the window that is returned is not before its start, the merge
  -- delays are not negative, and the expected one is within the maximum; and a frozen tree head that
  -- is returned has a signature that the log's public key verifies.
  pub validate_log_config-IsSound :
      (cfg : LogConfig T) (v : ValidatedLogConfig)
      → validate_log_config keys cfg ≡ ok v
      → IsSound cfg v
  unfolding validate_log_config
  validate_log_config-IsSound cfg v h =
      let (identified, h0) = one_passed (eqz cfg.log_id (pos 0)) empty_log_id _ v h in
      let (u1, is_public, h1) = >>=-eq-ok (check_public_key keys cfg) _ h0 in
      let (u2, is_private, h2) = >>=-eq-ok (check_private_key keys cfg) _ h1 in
      let (usages, is_usages, h3) =
        >>=-eq-ok
          (if cfg.reject_expired && cfg.reject_unexpired
            then err rejects_all
            else key_usages_from [] cfg.ext_key_usages)
          _ h2 in
      let (accepts, u3) =
        one_passed (cfg.reject_expired && cfg.reject_unexpired) rejects_all _ usages is_usages in
      let (start, is_start, h4) = >>=-eq-ok (read_time keys bad_start cfg.not_after_start) _ h3 in
      let (limit, is_limit, h5) = >>=-eq-ok (read_time keys bad_limit cfg.not_after_limit) _ h4 in
      let (u4, is_ordered, h6) =
        >>=-eq-ok
          (if is_before keys limit start then err limit_before_start else check_delays keys cfg) _
          h5 in
      let (window, is_delayed) =
        one_passed (is_before keys limit start) limit_before_start _ u4 is_ordered in
      let (frozen, is_frozen, h7) = >>=-eq-ok (read_frozen_sth keys cfg) _ h6 in
      let (no_mmd, no_emd, within) = delays_lem cfg is_delayed in
      subst (IsSound cfg) (ok_inj h7) (record {
        has_id = identified;
        is_keyed = keyed_lem cfg is_public is_private;
        accepts_some = accepts;
        is_window = window;
        no_negative_mmd = no_mmd;
        no_negative_emd = no_emd;
        within_mmd = within;
        is_frozen = λ sth e. frozen_lem cfg frozen sth is_frozen e is_public;
      })
