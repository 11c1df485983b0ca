-- ===== src/Ctfe/Signing.antt =====
-- trillian/ctfe/serialize.go and sth.go: signatures over tree heads and SCTs; GetCTLogID of
-- structures.go.
use certificate_transparency.Prelude.{ℕ, not, List, [], Option, none, some, if◌then◌else◌}
use certificate_transparency.Prelude.Bytes.{be_bytes}
use certificate_transparency.Prelude.Outcome.{Outcome, ok, err, panic, diverge, ◌>>=◌}
use certificate_transparency.Prelude.Text.{text_eq}
use certificate_transparency.Tls.Types.{Val}
use certificate_transparency.Ct.Types.{
  digitally_signed, v1, MerkleTreeLeaf, leaf_entry, TimestampedEntry, entry_timestamp,
  entry_extensions, Sct, SignedTreeHead,
}
use certificate_transparency.Ct.Signed.{
  CtError, deref, serialize_sct_signature_input, serialize_sth_signature_input,
}

-- A crypto.Signer: what Sign makes of a digest, which may differ from one call to the next, and of
-- its public key the signature algorithm and the DER form, if it has one.
pub record Signer : Type 0 where
  pub sign : ℕ → List ℕ → Option (List ℕ)
  pub algorithm : ℕ
  pub marshal_pkix_public_key : Option (List ℕ)

pub data SignError : Type 0 where
  not_serialized : CtError → SignError
  not_signed no_log_id empty_signature : SignError
  bad_quota rpc_failed no_log_root bad_log_root bad_hash_size : SignError

abbrev pub Result {ℓ} : Type ℓ → Type ℓ
Result A = Outcome SignError A

abbrev pub serialized {ℓ} : {A : Type ℓ} → Outcome CtError A → Result A
serialized (ok a) = ok a
serialized (err e) = err (not_serialized e)
serialized panic = panic
serialized diverge = diverge

abbrev pub or_error {ℓ} : {A : Type ℓ} → SignError → Option A → Result A
or_error e none = err e
or_error e (some a) = ok a

pub record SignatureCache : Type 0 where
  pub input : List ℕ
  pub sig : Val digitally_signed

abbrev pub no_signature : Val digitally_signed
no_signature = ((0, (0, tt)), ([], tt))

abbrev pub new_cache : SignatureCache
new_cache = record { input = []; sig = no_signature }

-- `GetSignature` and `SetSignature`.
unfoldable pub get_signature : SignatureCache → List ℕ → Option (Val digitally_signed)
unfolding text_eq
get_signature sc input = if not (text_eq input sc.input) then none else some sc.sig

unfoldable pub set_signature : SignatureCache → List ℕ → Val digitally_signed → SignatureCache
set_signature sc input sig = record { input = input; sig = sig }

-- tls.SHA256.
abbrev pub sha256_algorithm : ℕ
sha256_algorithm = 4

abbrev pub signature_value : Signer → List ℕ → Val digitally_signed
signature_value signer signature = ((sha256_algorithm, (signer.algorithm, tt)), (signature, tt))

-- The SCT whose bytes are signed, without a log ID and a signature.
abbrev pub sct_input : TimestampedEntry → Sct
sct_input e =
    (v1, ((be_bytes 32 0, tt), (entry_timestamp e, (entry_extensions e, (no_signature, tt)))))

module _ (sum256 : List ℕ → List ℕ) (signer : Signer) where
  -- The signature of bytes, by the call with a number.
  abbrev pub sign_bytes : ℕ → List ℕ → Result (Val digitally_signed)
  sign_bytes call input =
      or_error not_signed (signer.sign call (sum256 input)) >>= λ s. ok (signature_value signer s)

  -- A tree head with its bytes, and the cache.
  unfoldable pub sign_serialized :
      ℕ → SignedTreeHead → List ℕ → SignatureCache → Result (SignedTreeHead × SignatureCache)
  unfolding get_signature set_signature
  sign_serialized call sth sth_bytes cache = elim (get_signature cache sth_bytes) [
    | some sig ↦ ok (record sth { tree_head_signature = sig }, cache)
    | none ↦ do
      sig ← sign_bytes call sth_bytes
      ok (record sth { tree_head_signature = sig }, set_signature cache sth_bytes sig)
  ]

  -- `signV1TreeHead`. An error leaves the cache as it was.
  unfoldable pub sign_v1_tree_head :
      ℕ → SignedTreeHead → SignatureCache → Result (SignedTreeHead × SignatureCache)
  unfolding sign_serialized
  sign_v1_tree_head call sth cache = do
    sth_bytes ← serialized (serialize_sth_signature_input sth)
    sign_serialized call sth sth_bytes cache

  -- `GetCTLogID`.
  unfoldable pub get_ct_log_id : Option (List ℕ)
  get_ct_log_id = elim signer.marshal_pkix_public_key [
    | none ↦ none
    | some pub_bytes ↦ some (sum256 pub_bytes)
  ]

  -- `buildV1SCT`.
  unfoldable pub build_v1_sct : ℕ → MerkleTreeLeaf → Result Sct
  unfolding get_ct_log_id
  build_v1_sct call leaf = do
    e ← serialized (deref (leaf_entry leaf))
    input ← serialized (serialize_sct_signature_input (sct_input e) leaf)
    sig ← sign_bytes call input
    log_id ← or_error no_log_id get_ct_log_id
    ok (v1, ((log_id, tt), (entry_timestamp e, (entry_extensions e, (sig, tt)))))
