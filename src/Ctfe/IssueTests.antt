-- ===== src/Ctfe/IssueTests.antt =====
-- trillian/ctfe: a log that accepts a chain and gives a tree head, and the theorems on them.
use certificate_transparency.Prelude.{
  ℕ, ◌≡◌, refl, true, false, List, [], ◌∷◌, Option, none, some, length, arith,
}
use certificate_transparency.Prelude.Bytes.{be_bytes, be_value}
use certificate_transparency.Prelude.Int.{ℤ, pos}
use certificate_transparency.Prelude.Outcome.{ok, err}
use certificate_transparency.Tls.Marshal.{marshal}
use certificate_transparency.Tls.Parse.{unmarshal}
use certificate_transparency.Ct.Signed.{
  serialize_sct_signature_input, serialize_sth_signature_input,
}
use certificate_transparency.Tls.Codable.{IsVal}
use certificate_transparency.Ct.Types.{digitally_signed, Sct, SignedTreeHead}
use certificate_transparency.Ct.X509.{Certificate, X509, parsed}
use certificate_transparency.Ct.Entries.{
  AddChainResponse, GetSthResponse, to_signed_certificate_timestamp, to_signed_tree_head,
  unmarshal_all,
}
use certificate_transparency.Ctfe.Signing.{Signer, SignatureCache, new_cache, get_ct_log_id}
use certificate_transparency.Ctfe.TreeHeads.{LogRoot, no_quota, user_quota, get_sth}
use certificate_transparency.Ctfe.Answers.{GetRoot, started, served, IsTreeHead, get_sth-IsTreeHead}
use certificate_transparency.Ctfe.Chains.{
  CertValidationOpts, is_precertificate, first_of, verify_add_chain, expired, not_compliant,
  wrong_type,
}
use certificate_transparency.Ctfe.AddChain.{
  LogInfo, add_chain_response, write_sth, add_chain_internal,
}
use certificate_transparency.Ctfe.Admitted.{IsAdmitted, verify_add_chain-IsAdmitted}
use certificate_transparency.Ctfe.Issued.{
  IsIssued, add_chain_internal-IsIssued, add_chain_response-to_signed,
}

abbrev hash : List ℕ → List ℕ
hash bs = be_bytes 32 0

-- A signer whose signatures are the number of the call.
abbrev signer : Signer
signer = record {
  sign = λ call digest. some (call ∷ []);
  algorithm = 3;
  marshal_pkix_public_key = some [];
}

abbrev root : LogRoot
root = record { tree_size = 3; timestamp_nanos = 9000000; root_hash = be_bytes 32 7 }

abbrev get_root : GetRoot
get_root charge = some (some [])

abbrev read_root : List ℕ → Option LogRoot
read_root [] = some root
read_root (_ ∷ _) =
    some (record { tree_size = 2; timestamp_nanos = 8000000; root_hash = be_bytes 32 7 })

abbrev head : SignedTreeHead
head = record {
  version = 0;
  tree_size = 3;
  timestamp = 9;
  sha256_root_hash = be_bytes 32 7;
  tree_head_signature = ((4, (3, tt)), (5 ∷ [], tt));
  log_id = be_bytes 32 0;
}

-- The tree before it has grown.
abbrev get_old : GetRoot
get_old charge = some (some (1 ∷ []))

abbrev first_cache : SignatureCache
first_cache = (get_sth get_old read_root hash signer 4 no_quota new_cache).1

abbrev cache : SignatureCache
cache = (get_sth get_root read_root hash signer 5 no_quota first_cache).1

-- The tree has grown since the first call, so that the third answer has the signature of the second.
cached : (get_sth get_root read_root hash signer 6 (user_quota []) cache).0 ≡ ok head
unfolding get_sth be_bytes serialize_sth_signature_input marshal
cached = refl

get_sth-IsTreeHead_example : IsTreeHead read_root hash signer get_root (user_quota []) head
get_sth-IsTreeHead_example =
    get_sth-IsTreeHead read_root hash signer get_root 6 (user_quota []) cache head
      (served get_root first_cache 5 no_quota (served get_old new_cache 4 no_quota started)) cached

abbrev certificate : List ℕ → Certificate
certificate bs = record {
  raw = bs;
  raw_tbs_certificate = bs;
  raw_subject_public_key_info = bs;
  ext_key_usage = [];
  not_after = pos 7;
  is_ca = false;
  extensions = [];
}

abbrev x509 : X509
x509 = record {
  parse_certificate = λ bs. parsed (certificate bs) false;
  parse_tbs_certificate = λ bs. parsed (certificate bs) false;
  build_precert_tbs = λ bs issuer. some bs;
  remove_sct_list = λ bs. some bs;
  sum256 = hash;
}

-- The verifier completes a chain with one root.
abbrev verify : Certificate → List Certificate → ℤ → Option (List (List Certificate))
verify cert rest now = some ((cert ∷ (certificate (9 ∷ []) ∷ [])) ∷ [])

abbrev opts : CertValidationOpts
opts = record {
  current_time = none;
  reject_expired = true;
  reject_unexpired = false;
  not_after_start = some (pos 2);
  not_after_limit = some (pos 8);
  accept_only_ca = false;
  ext_key_usages = [];
  reject_ext_ids = [];
}

abbrev chain : List (List ℕ)
chain = (1 ∷ 2 ∷ []) ∷ []

abbrev path : List Certificate
path = certificate (1 ∷ 2 ∷ []) ∷ certificate (9 ∷ []) ∷ []

admitted : verify_add_chain x509.parse_certificate verify opts (pos 7) chain false ≡ ok path
unfolding verify_add_chain
admitted = refl

late : verify_add_chain x509.parse_certificate verify opts (pos 8) chain false ≡ err expired
unfolding verify_add_chain
late = refl

no_poison : verify_add_chain x509.parse_certificate verify opts (pos 7) chain true ≡ err wrong_type
unfolding verify_add_chain
no_poison = refl

-- The verifier's path has not the second certificate of this chain.
ignored :
    verify_add_chain x509.parse_certificate verify opts (pos 7) ((1 ∷ []) ∷ (2 ∷ []) ∷ []) false
    ≡ err not_compliant
unfolding verify_add_chain
ignored = refl

verify_add_chain-IsAdmitted_example :
    IsAdmitted x509.parse_certificate verify opts (pos 7) chain path
    × ((first : Certificate) × (first_of path ≡ ok first)
        × (is_precertificate first.extensions ≡ ok false))
verify_add_chain-IsAdmitted_example =
    verify_add_chain-IsAdmitted x509.parse_certificate verify opts (pos 7) chain false path admitted

-- The backend returns the leaf that it is sent.
abbrev log : LogInfo
log = record {
  x509 = x509;
  verify = verify;
  validation_opts = opts;
  signer = signer;
  encode_to_string = λ bs. bs;
  queue_leaves = λ queued. ok (some (queued.0 ∷ []));
}

abbrev response : AddChainResponse
response = record {
  sct_version = 0;
  id = be_bytes 32 0;
  timestamp = 9;
  extensions = [];
  signature = 4 ∷ 3 ∷ 0 ∷ 1 ∷ 5 ∷ [];
}

issued : add_chain_internal log (pos 7) 9 5 chain false ≡ ok response
unfolding add_chain_internal marshal be_bytes unmarshal_all unmarshal serialize_sct_signature_input
    be_value
issued = refl

add_chain_internal-IsIssued_example : IsIssued log (pos 7) 9 chain false response
add_chain_internal-IsIssued_example =
    add_chain_internal-IsIssued log (pos 7) 9 5 chain false response issued

abbrev sct : Sct
sct = (0, ((be_bytes 32 0, tt), (9, ([], (((4, (3, tt)), (5 ∷ [], tt)), tt)))))

abbrev sth_response : GetSthResponse
sth_response = record {
  tree_size = 3;
  timestamp = 9;
  sha256_root_hash = be_bytes 32 7;
  tree_head_signature = 4 ∷ 3 ∷ 0 ∷ 1 ∷ 5 ∷ [];
}

answer : add_chain_response hash signer (λ bs. bs) sct ≡ ok response
unfolding add_chain_response marshal be_bytes
answer = refl

written : write_sth head ≡ ok sth_response
unfolding write_sth marshal be_bytes
written = refl

signature-IsVal : IsVal digitally_signed ((4, (3, tt)), (5 ∷ [], tt))
signature-IsVal = ((omega arith, (omega arith, tt)), ((omega arith, tt), tt))

is_long : length (be_bytes 32 0) ≡ 32
unfolding be_bytes
is_long = refl

root_is_long : length (be_bytes 32 7) ≡ 32
unfolding be_bytes
root_is_long = refl

is_hash : get_ct_log_id hash signer ≡ some (be_bytes 32 0)
unfolding get_ct_log_id
is_hash = refl

decoded : (bs : List ℕ) → ◌≡◌ {A = Option (List ℕ)} (some bs) (some bs)
decoded bs = refl

add_chain_response-to_signed_example :
    (to_signed_certificate_timestamp (λ bs. some bs) response ≡ ok sct)
    × (to_signed_tree_head sth_response ≡ ok (record head { log_id = be_bytes 32 0 }))
add_chain_response-to_signed_example =
    add_chain_response-to_signed hash signer (λ bs. bs) (λ bs. some bs) sct response head
      sth_response decoded is_hash is_long signature-IsVal answer refl root_is_long signature-IsVal
      written
