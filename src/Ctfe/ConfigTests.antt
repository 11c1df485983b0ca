-- ===== src/Ctfe/ConfigTests.antt =====
-- trillian/ctfe/config.go: configurations, and the theorems on them.
use certificate_transparency.Prelude.{◌≡◌, refl, true, false, List, [], ◌∷◌, none, some, All}
use certificate_transparency.Prelude.Int.{ℤ, pos, negsuc}
use certificate_transparency.Prelude.Outcome.{ok, err}
use certificate_transparency.Prelude.Text.{Text, codes, Map, lookup}
use certificate_transparency.Submission.State.{has_text}
use certificate_transparency.Ctfe.Config.{
  LogConfig, ValidatedLogConfig, Keys, validate_log_config, duplicate_tree_id, limit_before_start,
  emd_exceeds_mmd,
}
use certificate_transparency.Ctfe.MultiConfig.{
  LogBackend, log_id_key, validate_log_configs, validate_log_multi_config,
}
use certificate_transparency.Ctfe.Distinct.{IsOnce}
use certificate_transparency.Ctfe.Backends.{AreBackends}
use certificate_transparency.Ctfe.Valid.{AreValid, id_keys, validate_log_multi_config-AreValid}
use certificate_transparency.Ctfe.Single.{IsSound, validate_log_config-IsSound}

-- Every key is read, every signature verified, and a timestamp is an instant.
abbrev keys : Keys ℤ
keys = record {
  unmarshal_public_key = λ der. true;
  unmarshal_any = λ key. true;
  timestamp = λ t. some t;
  new_signature_verifier = λ der. true;
  verify_sth_signature = λ der sth. true;
}

abbrev config : Text → ℤ → Text → LogConfig ℤ
config prefix log_id backend = record {
  log_id = log_id;
  prefix = prefix;
  public_key = none;
  private_key = some (1 ∷ []);
  is_mirror = false;
  reject_expired = true;
  reject_unexpired = false;
  ext_key_usages = codes "ServerAuth" ∷ [];
  not_after_start = some (pos 5);
  not_after_limit = some (pos 9);
  max_merge_delay_sec = pos 86400;
  expected_merge_delay_sec = pos 60;
  frozen_sth = none;
  log_backend_name = backend;
}

abbrev first : LogConfig ℤ
first = config (codes "first") (pos 7) (codes "a")

abbrev second : LogConfig ℤ
second = config (codes "second") (pos 7) (codes "b")

abbrev backends : List LogBackend
backends =
    record { name = codes "a"; backend_spec = codes "one" }
    ∷ record { name = codes "b"; backend_spec = codes "two" }
    ∷ []

abbrev backend_map : Map LogBackend
backend_map =
    (codes "a", record { name = codes "a"; backend_spec = codes "one" })
    ∷ (codes "b", record { name = codes "b"; backend_spec = codes "two" })
    ∷ []

abbrev validated : ValidatedLogConfig
validated = record {
  key_usages = 1 ∷ [];
  not_after_start = some (pos 5);
  not_after_limit = some (pos 9);
  frozen_sth = none;
}

single : validate_log_config keys first ≡ ok validated
unfolding validate_log_config
single = refl

backwards :
    validate_log_config keys (record first { not_after_limit = some (pos 4) })
    ≡ err limit_before_start
unfolding validate_log_config
backwards = refl

slow :
    validate_log_config keys (record first { expected_merge_delay_sec = pos 86401 })
    ≡ err emd_exceeds_mmd
unfolding validate_log_config
slow = refl

-- One tree ID on two backends is accepted, on one server it is not.
several : validate_log_multi_config keys backends (first ∷ second ∷ []) ≡ ok backend_map
unfolding validate_log_multi_config
several = refl

same_server : validate_log_configs keys (first ∷ second ∷ []) ≡ err duplicate_tree_id
unfolding validate_log_configs
same_server = refl

-- The keys of two different pairs of a backend and a tree ID can be the same.
colliding : log_id_key (codes "a") (negsuc 1) ≡ log_id_key (codes "a-") (pos 2)
unfolding log_id_key
colliding = refl

validate_log_config-IsSound_example : IsSound keys first validated
validate_log_config-IsSound_example = validate_log_config-IsSound keys first validated single

validate_log_multi_config-AreValid_example :
    AreBackends backends backend_map
    × AreValid keys (first ∷ second ∷ [])
    × All
        (λ (c : LogConfig ℤ). (be : LogBackend) × (lookup c.log_backend_name backend_map ≡ some be))
        (first ∷ second ∷ [])
    × IsOnce has_text (id_keys (first ∷ second ∷ []))
validate_log_multi_config-AreValid_example =
    validate_log_multi_config-AreValid keys (first ∷ second ∷ []) backends backend_map several
