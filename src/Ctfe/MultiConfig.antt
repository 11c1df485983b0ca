-- ===== src/Ctfe/MultiConfig.antt =====
-- trillian/ctfe/config.go: the backends of a server, and its configurations together.
use certificate_transparency.Ctfe.Config.{
  LogConfig, Keys, Result, validate_log_config, empty_backend_name, empty_backend_spec,
  duplicate_backend_name, duplicate_backend_spec, empty_prefix, duplicate_prefix, duplicate_tree_id,
  undefined_backend,
}
use certificate_transparency.Prelude.{
  ℕ, zero, suc, ◌+◌, ◌/◌, ◌%◌, Bool, true, false, not, ◌||◌, List, [], ◌∷◌, ◌++◌, Option, none,
  some, ltb, if◌then◌else◌,
}
use certificate_transparency.Prelude.Int.{ℤ, pos, negsuc, eqz}
use certificate_transparency.Prelude.Outcome.{ok, err, ◌>>=◌, ◌>>◌}
use certificate_transparency.Prelude.Text.{Text, codes, Map, lookup, insert}
use certificate_transparency.Submission.State.{has_text}

pub record LogBackend : Type 0 where
  pub name : Text
  pub backend_spec : Text

abbrev pub is_empty : Text → Bool
is_empty [] = true
is_empty _ = false

abbrev pub is_some {ℓ} : {A : Type ℓ} → Option A → Bool
is_some none = false
is_some (some a) = true

-- The loop of `BuildLogBackendMap`, with the map and the specifications so far.
unfoldable pub add_backends : Map LogBackend → List Text → List LogBackend → Result (Map LogBackend)
unfolding lookup insert has_text
add_backends lbm specs [] = ok lbm
add_backends lbm specs (be ∷ bes) =
    if is_empty be.name
    then err empty_backend_name
    else if is_empty be.backend_spec
    then err empty_backend_spec
    else if is_some (lookup be.name lbm)
    then err duplicate_backend_name
    else if has_text be.backend_spec specs
    then err duplicate_backend_spec
    else add_backends (insert be.name be lbm) (be.backend_spec ∷ specs) bes

-- `BuildLogBackendMap`.
unfoldable pub build_log_backend_map : List LogBackend → Result (Map LogBackend)
unfolding add_backends
build_log_backend_map backends = add_backends [] [] backends

-- `%d` of a number, digit by digit; 20 digits are enough for 64 bits.
abbrev pub decimal : ℕ → ℕ → Text
decimal zero n = []
decimal (suc f) n = if ltb n 10 then (48 + n) ∷ [] else decimal f (n / 10) ++ ((48 + n % 10) ∷ [])

abbrev pub decimal_of : ℤ → Text
decimal_of (pos n) = decimal 20 n
decimal_of (negsuc n) = 45 ∷ decimal 20 (n + 1)

-- The key by which tree IDs are told apart per backend.
unfoldable pub log_id_key : Text → ℤ → Text
log_id_key name id = name ++ (45 ∷ decimal_of id)

unfoldable pub has_id : ℤ → List ℤ → Bool
has_id i [] = false
has_id i (j ∷ js) = eqz j i || has_id i js

module _ {T : Type 0} where
  -- The second loop of `ValidateLogConfigs`.
  unfoldable pub check_tree_ids : List ℤ → List (LogConfig T) → Result (Unit {0})
  unfolding has_id
  check_tree_ids ids [] = ok tt
  check_tree_ids ids (cfg ∷ cfgs) =
      if has_id cfg.log_id ids
      then err duplicate_tree_id
      else check_tree_ids (cfg.log_id ∷ ids) cfgs

  -- The loop of `ValidateLogMultiConfig`.
  unfoldable pub check_backends :
      Map LogBackend → List Text → List (LogConfig T) → Result (Unit {0})
  unfolding lookup has_text log_id_key
  check_backends lbm ids [] = ok tt
  check_backends lbm ids (cfg ∷ cfgs) =
      if not (is_some (lookup cfg.log_backend_name lbm))
      then err undefined_backend
      else if has_text (log_id_key cfg.log_backend_name cfg.log_id) ids
      then err duplicate_tree_id
      else check_backends lbm (log_id_key cfg.log_backend_name cfg.log_id ∷ ids) cfgs

module _ {T : Type 0} (keys : Keys T) where
  -- The loop of `validateConfigs`, with the prefixes so far.
  unfoldable pub check_configs : List Text → List (LogConfig T) → Result (Unit {0})
  unfolding validate_log_config has_text
  check_configs names [] = ok tt
  check_configs names (cfg ∷ cfgs) = do
    v ← validate_log_config keys cfg
    if is_empty cfg.prefix
        then err empty_prefix
        else if has_text cfg.prefix names
        then err duplicate_prefix
        else check_configs (cfg.prefix ∷ names) cfgs

  -- `ValidateLogConfigs`.
  unfoldable pub validate_log_configs : List (LogConfig T) → Result (Unit {0})
  unfolding check_configs check_tree_ids
  validate_log_configs cfgs = check_configs [] cfgs >> check_tree_ids [] cfgs

  -- `ValidateLogMultiConfig`.
  unfoldable pub validate_log_multi_config :
      List LogBackend → List (LogConfig T) → Result (Map LogBackend)
  unfolding build_log_backend_map check_configs check_backends
  validate_log_multi_config backends cfgs = do
    backend_map ← build_log_backend_map backends
    check_configs [] cfgs
    check_backends backend_map [] cfgs
    ok backend_map

-- `ToMultiLogConfig`: the backends and the log configurations.
unfoldable pub to_multi_log_config :
    {T : Type 0} → List (LogConfig T) → Text → List LogBackend × List (LogConfig T)
to_multi_log_config cfgs be_spec =
    (record { name = codes "default"; backend_spec = be_spec } ∷ [], with_backend cfgs)
  where
    with_backend : {T : Type 0} → List (LogConfig T) → List (LogConfig T)
    with_backend [] = []
    with_backend (c ∷ cs) = record c { log_backend_name = codes "default" } ∷ with_backend cs
