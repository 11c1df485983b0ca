-- ===== src/Ctfe/Valid.antt =====
-- trillian/ctfe/config.go: what holds of configurations that are valid.
use certificate_transparency.Prelude.{
  ◌≡◌, inl, inr, ap, subst, ◌∙◌, false, not, List, [], ◌∷◌, some, Bool-cases, All,
}
use certificate_transparency.Prelude.Int.{ℤ}
use certificate_transparency.Prelude.Outcome.{ok, >>=-eq-ok, ok_inj, err-ne_ok}
use certificate_transparency.Prelude.Text.{Text, Map, lookup}
use certificate_transparency.Submission.State.{has_text}
use certificate_transparency.Ctfe.Config.{LogConfig, ValidatedLogConfig, Keys, validate_log_config}
use certificate_transparency.Ctfe.MultiConfig.{
  LogBackend, is_empty, is_some, build_log_backend_map, log_id_key, has_id, check_configs,
  check_tree_ids, validate_log_configs, check_backends, validate_log_multi_config,
}
use certificate_transparency.Ctfe.Distinct.{IsNew, IsOnce, texts-IsOnce, ids-IsOnce}
use certificate_transparency.Ctfe.Backends.{
  two_passed, some_of, names, AreBackends, build_log_backend_map-AreBackends,
}

module _ {T : Type 0} where
  abbrev pub prefixes : List (LogConfig T) → List Text
  prefixes [] = []
  prefixes (c ∷ cs) = c.prefix ∷ prefixes cs

  abbrev pub log_ids : List (LogConfig T) → List ℤ
  log_ids [] = []
  log_ids (c ∷ cs) = c.log_id ∷ log_ids cs

  abbrev pub id_keys : List (LogConfig T) → List Text
  id_keys [] = []
  id_keys (c ∷ cs) = log_id_key c.log_backend_name c.log_id ∷ id_keys cs

  -- Each configuration is valid by itself and has a prefix, and no prefix is there twice.
  abbrev pub AreValid : Keys T → List (LogConfig T) → Type 0
  AreValid keys cfgs =
      All
        (λ (c : LogConfig T).
          ((v : ValidatedLogConfig) × (validate_log_config keys c ≡ ok v))
          × (is_empty c.prefix ≡ false))
        cfgs
      × IsOnce has_text (prefixes cfgs)

  check_configs-All :
      (keys : Keys T) (names : List Text) (cfgs : List (LogConfig T))
      → check_configs keys names cfgs ≡ ok tt
      → All
          (λ (c : LogConfig T).
            ((v : ValidatedLogConfig) × (validate_log_config keys c ≡ ok v))
            × (is_empty c.prefix ≡ false))
          cfgs
        × IsNew has_text names (prefixes cfgs)
  unfolding check_configs
  check_configs-All keys names [] h = (tt, tt)
  check_configs-All keys names (c ∷ cs) h =
      let (v, is_v, h1) = >>=-eq-ok (validate_log_config keys c) _ h in
      let (filled, fresh, h2) =
        two_passed (is_empty c.prefix) (has_text c.prefix names)
          (check_configs keys (c.prefix ∷ names) cs) tt _ _ h1 in
      let (valid, new) = check_configs-All keys (c.prefix ∷ names) cs h2 in
      ((((v, is_v), filled), valid), (fresh, new))

  check_configs-AreValid :
      (keys : Keys T) (cfgs : List (LogConfig T))
      → check_configs keys [] cfgs ≡ ok tt
      → AreValid keys cfgs
  check_configs-AreValid keys cfgs h =
      let (valid, new) = check_configs-All keys [] cfgs h in
      (valid, texts-IsOnce (prefixes cfgs) new)

  check_tree_ids-IsNew :
      (ids : List ℤ) (cfgs : List (LogConfig T))
      → check_tree_ids ids cfgs ≡ ok tt
      → IsNew has_id ids (log_ids cfgs)
  unfolding check_tree_ids
  check_tree_ids-IsNew ids [] h = tt
  check_tree_ids-IsNew ids (c ∷ cs) h = elim (Bool-cases (has_id c.log_id ids)) [
    | inl old ↦ absurd (err-ne_ok (rw old at h))
    | inr fresh ↦ (fresh, check_tree_ids-IsNew (c.log_id ∷ ids) cs (rw fresh at h))
  ]

  check_backends-All :
      (lbm : Map LogBackend) (ids : List Text) (cfgs : List (LogConfig T))
      → check_backends lbm ids cfgs ≡ ok tt
      → All
          (λ (c : LogConfig T). (be : LogBackend) × (lookup c.log_backend_name lbm ≡ some be))
          cfgs
        × IsNew has_text ids (id_keys cfgs)
  unfolding check_backends
  check_backends-All lbm ids [] h = (tt, tt)
  check_backends-All lbm ids (c ∷ cs) h =
      let key = log_id_key c.log_backend_name c.log_id in
      let (known, fresh, h1) =
        two_passed (not (is_some (lookup c.log_backend_name lbm))) (has_text key ids)
          (check_backends lbm (key ∷ ids) cs) tt _ _ h in
      let (all, new) = check_backends-All lbm (key ∷ ids) cs h1 in
      ((some_of (lookup c.log_backend_name lbm) known, all), (fresh, new))

module _ {T : Type 0} (keys : Keys T) (cfgs : List (LogConfig T)) where
  -- Configurations for one server that are accepted: each is valid by itself and has a prefix, and no
  -- two have the same prefix or the same tree ID.
  pub validate_log_configs-AreValid :
      validate_log_configs keys cfgs ≡ ok tt → AreValid keys cfgs × IsOnce has_id (log_ids cfgs)
  unfolding validate_log_configs
  validate_log_configs-AreValid h =
      let (unit, checked, h1) = >>=-eq-ok (check_configs keys [] cfgs) _ h in
      (
        check_configs-AreValid keys cfgs checked,
        ids-IsOnce (log_ids cfgs) (check_tree_ids-IsNew [] cfgs h1),
      )

  -- Configurations for several backends that are accepted: the backends have names and
  -- specifications, all distinct, and the map that is returned has each under its name; each
  -- configuration is valid by itself, has a prefix, and names a backend of the map; no two have the
  -- same prefix, or the same key of a backend's name and a tree ID.
  pub validate_log_multi_config-AreValid :
      (backends : List LogBackend) (m : Map LogBackend)
      → validate_log_multi_config keys backends cfgs ≡ ok m
      → AreBackends backends m
        × AreValid keys cfgs
        × All
            (λ (c : LogConfig T). (be : LogBackend) × (lookup c.log_backend_name m ≡ some be))
            cfgs
        × IsOnce has_text (id_keys cfgs)
  unfolding validate_log_multi_config
  validate_log_multi_config-AreValid backends m h =
      let (lbm, built, h1) = >>=-eq-ok (build_log_backend_map backends) _ h in
      let (u1, checked, h2) = >>=-eq-ok (check_configs keys [] cfgs) _ h1 in
      let (u2, known, h3) = >>=-eq-ok (check_backends lbm [] cfgs) _ h2 in
      let same : lbm ≡ m = ok_inj h3 in
      let (all, new) = check_backends-All lbm [] cfgs known in
      (
        build_log_backend_map-AreBackends backends m (built ∙ ap ok same),
        check_configs-AreValid keys cfgs checked,
        subst
            (λ (n : Map LogBackend).
              All (λ (c : LogConfig T). (be : LogBackend) × (lookup c.log_backend_name n ≡ some be))
                cfgs)
            same all,
        texts-IsOnce (id_keys cfgs) new,
      )
