-- ===== src/Ctfe/TreeHeads.antt =====
-- trillian/ctfe/sth.go: the tree heads that a log answers with.
use certificate_transparency.Prelude.{
  ℕ, ◌/◌, not, List, [], ◌∷◌, ◌++◌, Option, none, some, ◌==◌, length, if◌then◌else◌,
}
use certificate_transparency.Prelude.Bytes.{be_bytes}
use certificate_transparency.Prelude.Outcome.{ok, err, panic, diverge, ◌>>=◌}
use certificate_transparency.Prelude.Text.{Text}
use certificate_transparency.Ct.Types.{v1, SignedTreeHead}
use certificate_transparency.Ctfe.Signing.{
  Signer, Result, SignatureCache, no_signature, or_error, sign_v1_tree_head, bad_quota, rpc_failed,
  no_log_root, bad_log_root, bad_hash_size, empty_signature,
}

-- The fields of types.LogRootV1 that are read.
pub record LogRoot : Type 0 where
  pub tree_size : ℕ
  pub timestamp_nanos : ℕ
  pub root_hash : List ℕ

-- The value of the quota key of a context: not there, not a string, or a user.
pub data Quota : Type 0 where
  no_quota other_quota : Quota
  user_quota : Text → Quota

-- Whom a request is charged to: `appendUserCharge` on a ChargeTo that is missing or not.
unfoldable pub append_user_charge : Option (List Text) → Text → List Text
append_user_charge none user = user ∷ []
append_user_charge (some users) user = users ++ (user ∷ [])

unfoldable pub charge_of : Quota → Result (Option (List Text))
unfolding append_user_charge
charge_of no_quota = ok none
charge_of other_quota = err bad_quota
charge_of (user_quota user) = ok (some (append_user_charge none user))

-- The tree head without its signature.
abbrev pub unsigned_tree_head : LogRoot → SignedTreeHead
unsigned_tree_head root = record {
  version = v1;
  tree_size = root.tree_size;
  timestamp = root.timestamp_nanos / 1000 / 1000;
  sha256_root_hash = root.root_hash;
  tree_head_signature = no_signature;
  log_id = be_bytes 32 0;
}

-- The last test of `GetSTH`, which is made after the signature was cached.
abbrev pub signed_tree_head :
    SignatureCache
    → Result (SignedTreeHead × SignatureCache)
    → Result SignedTreeHead × SignatureCache
signed_tree_head cache (ok (sth, cache')) =
    (if length (sth.tree_head_signature).1.0 == 0 then err empty_signature else ok sth, cache')
signed_tree_head cache (err e) = (err e, cache)
signed_tree_head cache panic = (panic, cache)
signed_tree_head cache diverge = (diverge, cache)

-- The parameters are the call GetLatestSignedLogRoot, which fails, or answers with or without a
-- root, and `UnmarshalBinary` of a LogRootV1.
module _ (get_latest_signed_log_root : Option (List Text) → Option (Option (List ℕ)))
    (unmarshal_binary : List ℕ → Option LogRoot) where
  -- `getSignedLogRoot`.
  unfoldable pub get_signed_log_root : Quota → Result LogRoot
  unfolding charge_of
  get_signed_log_root quota = do
    charge_to ← charge_of quota
    rsp ← or_error rpc_failed (get_latest_signed_log_root charge_to)
    slr ← or_error no_log_root rsp
    current_root ← or_error bad_log_root (unmarshal_binary slr)
    if not (length current_root.root_hash == 32) then err bad_hash_size else ok current_root

  module _ (sum256 : List ℕ → List ℕ) (signer : Signer) where
    -- `GetSTH` of a LogSTHGetter, which keeps a cache.
    unfoldable pub get_sth : ℕ → Quota → SignatureCache → Result SignedTreeHead × SignatureCache
    unfolding get_signed_log_root sign_v1_tree_head
    get_sth call quota cache = signed_tree_head cache (
        get_signed_log_root quota >>= λ root.
        sign_v1_tree_head sum256 signer call (unsigned_tree_head root) cache)

-- `GetSTH` of a MirrorSTHGetter; the parameter before the quota is the storage's GetMirrorSTH.
unfoldable pub get_mirror_sth :
    (Option (List Text) → Option (Option (List ℕ)))
    → (List ℕ → Option LogRoot)
    → (ℕ → Result SignedTreeHead)
    → Quota
    → Result SignedTreeHead
unfolding get_signed_log_root
get_mirror_sth get_root unmarshal_binary get_mirror quota = do
  current_root ← get_signed_log_root get_root unmarshal_binary quota
  get_mirror current_root.tree_size
