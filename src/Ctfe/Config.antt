-- ===== src/Ctfe/Config.antt =====
-- trillian/ctfe/config.go: the configurations of logs and of their backends.
use certificate_transparency.Prelude.{
  ℕ, zero, suc, Bool, false, not, ◌&&◌, List, [], ◌∷◌, ◌++◌, Option, none, some, if◌then◌else◌,
}
use certificate_transparency.Prelude.Int.{ℤ, pos, ltz, eqz}
use certificate_transparency.Prelude.Outcome.{Outcome, ok, err, panic, diverge, ◌>>=◌, ◌>>◌}
use certificate_transparency.Prelude.Text.{Text, codes, Map, lookup}
use certificate_transparency.Ct.Types.{SignedTreeHead}
use certificate_transparency.Ct.Signed as Signed
use certificate_transparency.Ct.Entries.{GetSthResponse, to_signed_tree_head}

pub data ConfigError : Type 0 where
  empty_log_id bad_public_key no_public_key_of_mirror no_public_key_of_frozen : ConfigError
  no_private_key bad_private_key private_key_of_mirror rejects_all unknown_usage : ConfigError
  bad_start bad_limit limit_before_start negative_mmd negative_emd emd_exceeds_mmd : ConfigError
  no_verifier bad_frozen_sth bad_frozen_signature : ConfigError
  empty_backend_name empty_backend_spec duplicate_backend_name duplicate_backend_spec : ConfigError
  empty_prefix duplicate_prefix duplicate_tree_id undefined_backend : ConfigError

abbrev pub Result {ℓ} : Type ℓ → Type ℓ
Result A = Outcome ConfigError A

-- The fields of configpb.LogConfig that are read here; `T` is its type of timestamps.
pub record LogConfig (T : Type 0) : Type 0 where
  pub log_id : ℤ
  pub prefix : Text
  pub public_key : Option (List ℕ)
  pub private_key : Option (List ℕ)
  pub is_mirror : Bool
  pub reject_expired : Bool
  pub reject_unexpired : Bool
  pub ext_key_usages : List Text
  pub not_after_start : Option T
  pub not_after_limit : Option T
  pub max_merge_delay_sec : ℤ
  pub expected_merge_delay_sec : ℤ
  pub frozen_sth : Option GetSthResponse
  pub log_backend_name : Text

pub record ValidatedLogConfig : Type 0 where
  pub key_usages : List ℕ
  pub not_after_start : Option ℤ
  pub not_after_limit : Option ℤ
  pub frozen_sth : Option SignedTreeHead

-- What the validation calls: whether a public and a private key are unmarshalled, ptypes.Timestamp,
-- whether there is a verifier for a key, and whether it verifies a tree head.
pub record Keys (T : Type 0) : Type 0 where
  pub unmarshal_public_key : List ℕ → Bool
  pub unmarshal_any : List ℕ → Bool
  pub timestamp : T → Option ℤ
  pub new_signature_verifier : List ℕ → Bool
  pub verify_sth_signature : List ℕ → SignedTreeHead → Bool

-- `stringToKeyUsage`, with the numbers of x509.ExtKeyUsage.
abbrev key_usage_table : Map ℕ
key_usage_table =
    (codes "Any", 0)
    ∷ (codes "ServerAuth", 1)
    ∷ (codes "ClientAuth", 2)
    ∷ (codes "CodeSigning", 3)
    ∷ (codes "EmailProtection", 4)
    ∷ (codes "IPSECEndSystem", 5)
    ∷ (codes "IPSECTunnel", 6)
    ∷ (codes "IPSECUser", 7)
    ∷ (codes "TimeStamping", 8)
    ∷ (codes "OCSPSigning", 9)
    ∷ (codes "MicrosoftServerGatedCrypto", 10)
    ∷ (codes "NetscapeServerGatedCrypto", 11)
    ∷ []

-- The loop over the names of usages, with those that were read.
unfoldable pub key_usages_from : List ℕ → List Text → Result (List ℕ)
unfolding lookup
key_usages_from usages [] = ok usages
key_usages_from usages (name ∷ names) = elim (lookup name key_usage_table) [
  | none ↦ err unknown_usage
  | some zero ↦ ok []
  | some (suc u) ↦ key_usages_from (usages ++ (suc u ∷ [])) names
]

module _ {T : Type 0} (keys : Keys T) where
  abbrev pub check_public_key : LogConfig T → Result (Unit {0})
  check_public_key cfg = elim cfg.public_key [
    | some der ↦ if keys.unmarshal_public_key der then ok tt else err bad_public_key
    | none ↦
        if cfg.is_mirror
        then err no_public_key_of_mirror
        else elim cfg.frozen_sth [ some _ ↦ err no_public_key_of_frozen | none ↦ ok tt ]
  ]

  abbrev pub check_private_key : LogConfig T → Result (Unit {0})
  check_private_key cfg = elim cfg.private_key [
    | none ↦ if cfg.is_mirror then ok tt else err no_private_key
    | some key ↦
        if cfg.is_mirror
        then err private_key_of_mirror
        else if keys.unmarshal_any key
        then ok tt
        else err bad_private_key
  ]

  abbrev pub read_time : ConfigError → Option T → Result (Option ℤ)
  read_time bad none = ok none
  read_time bad (some t) = elim (keys.timestamp t) [ none ↦ err bad | some at ↦ ok (some at) ]

  abbrev pub is_before : Option ℤ → Option ℤ → Bool
  is_before (some limit) (some start) = ltz limit start
  is_before _ _ = false

  abbrev pub check_delays : LogConfig T → Result (Unit {0})
  check_delays cfg =
      if ltz cfg.max_merge_delay_sec (pos 0)
      then err negative_mmd
      else if ltz cfg.expected_merge_delay_sec (pos 0)
      then err negative_emd
      else if ltz cfg.max_merge_delay_sec cfg.expected_merge_delay_sec
      then err emd_exceeds_mmd
      else ok tt

  abbrev pub bad_sth : Signed.Result SignedTreeHead → Result SignedTreeHead
  bad_sth (ok sth) = ok sth
  bad_sth (err e) = err bad_frozen_sth
  bad_sth panic = panic
  bad_sth diverge = diverge

  abbrev pub public_key_of : LogConfig T → List ℕ
  public_key_of cfg = elim cfg.public_key [ none ↦ [] | some der ↦ der ]

  abbrev pub read_frozen_sth : LogConfig T → Result (Option SignedTreeHead)
  read_frozen_sth cfg = elim cfg.frozen_sth [
    | none ↦ ok none
    | some rsp ↦
        if not (keys.new_signature_verifier (public_key_of cfg)) then err no_verifier else (do
          sth ← bad_sth (to_signed_tree_head rsp)
          if keys.verify_sth_signature (public_key_of cfg) sth
              then ok (some sth)
              else err bad_frozen_signature)
  ]

  -- `ValidateLogConfig`.
  unfoldable pub validate_log_config : LogConfig T → Result ValidatedLogConfig
  unfolding key_usages_from to_signed_tree_head
  validate_log_config cfg = if eqz cfg.log_id (pos 0) then err empty_log_id else (do
    check_public_key cfg
    check_private_key cfg
    usages ←
        if cfg.reject_expired && cfg.reject_unexpired
        then err rejects_all
        else key_usages_from [] cfg.ext_key_usages
    start ← read_time bad_start cfg.not_after_start
    limit ← read_time bad_limit cfg.not_after_limit
    if is_before limit start then err limit_before_start else check_delays cfg
    frozen ← read_frozen_sth cfg
    ok (record {
      key_usages = usages;
      not_after_start = start;
      not_after_limit = limit;
      frozen_sth = frozen;
    }))
