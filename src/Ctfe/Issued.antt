-- ===== src/Ctfe/Issued.antt =====
-- trillian/ctfe/handlers.go: what add-chain answers with, and what clients read of answers.
use certificate_transparency.Prelude.{
  ℕ, ◌≡◌, refl, ap, subst, sym, ◌∙◌, Bool, List, [], ◌∷◌, Option, none, some, some_inj, length,
}
use certificate_transparency.Prelude.Bytes.{be_bytes}
use certificate_transparency.Prelude.Int.{ℤ}
use certificate_transparency.Prelude.Outcome.{ok, >>=-eq-ok, ok_inj, err-ne_ok}
use certificate_transparency.Prelude.Text.{Text}
use certificate_transparency.Tls.Marshal.{marshal}
use certificate_transparency.Tls.Codable.{IsVal, is_codable}
use certificate_transparency.Ct.Types.{
  digitally_signed, signed_certificate_timestamp, merkle_tree_leaf, v1, MerkleTreeLeaf, Sct,
  sct_version, sct_timestamp, sct_extensions, SignedTreeHead,
}
use certificate_transparency.Ct.Entries.{
  AddChainResponse, GetSthResponse, unmarshal_all, to_signed_certificate_timestamp,
  to_signed_tree_head,
}
use certificate_transparency.Ct.Whole.{unmarshal_all-marshal}
use certificate_transparency.Ctfe.Backend.{LogLeaf, from_rpc, or_status, or_missing}
use certificate_transparency.Ctfe.Calls.{or_status-eq-ok, from_rpc-eq-ok, or_missing-eq-ok}
use certificate_transparency.Ctfe.Signing.{Signer, get_ct_log_id, build_v1_sct}
use certificate_transparency.Ctfe.Answers.{IsSctOf, build_v1_sct-IsSctOf, log_id_lem}
use certificate_transparency.Ctfe.AddChain.{
  LogInfo, add_chain_response, write_sth, queued_leaf, answered_leaf, only_leaf, add_chain_internal,
}

only_leaf-eq-ok : (o : Option (List LogLeaf)) (l : LogLeaf) → only_leaf o ≡ ok l → o ≡ some (l ∷ [])
only_leaf-eq-ok none l h = cc
only_leaf-eq-ok (some []) l h = cc
only_leaf-eq-ok (some (k ∷ [])) l h = ap (λ (m : LogLeaf). some (m ∷ [])) (ok_inj h)
only_leaf-eq-ok (some (k ∷ m ∷ ls)) l h = cc

-- The answer has the fields of the SCT, with the encoding of its signature.
abbrev pub IsResponseOf : (List ℕ → Text) → Sct → AddChainResponse → Type 0
IsResponseOf encode sct r =
    (r.sct_version ≡ sct_version sct)
    × (r.id ≡ sct.1.0.0)
    × (r.timestamp ≡ sct_timestamp sct)
    × (r.extensions ≡ encode (sct_extensions sct))
    × (marshal digitally_signed sct.1.1.1.1.0 ≡ ok r.signature)

add_chain_response-IsResponseOf :
    (sum256 : List ℕ → List ℕ) (signer : Signer) (encode : List ℕ → Text) (leaf : MerkleTreeLeaf)
    (sct : Sct) (r : AddChainResponse)
    → IsSctOf sum256 signer leaf sct
    → add_chain_response sum256 signer encode sct ≡ ok r
    → IsResponseOf encode sct r
unfolding add_chain_response
add_chain_response-IsResponseOf sum256 signer encode leaf sct r is_sct h =
    let (log_id, is_id, h1) = >>=-eq-ok (or_missing 500 (get_ct_log_id sum256 signer)) _ h in
    let (sig, is_sig, h2) =
      >>=-eq-ok (or_status 500 (marshal digitally_signed sct.1.1.1.1.0)) _ h1 in
    let (key, is_key, hashed) =
      log_id_lem sum256 signer log_id
        (or_missing-eq-ok 500 (get_ct_log_id sum256 signer) log_id is_id) in
    let same_key : key ≡ is_sct.public_key = some_inj (sym is_key ∙ is_sct.is_key) in
    subst (IsResponseOf encode sct) (ok_inj h2) (
      refl,
      hashed ∙ ap sum256 same_key ∙ sym is_sct.is_log_id,
      refl,
      refl,
      or_status-eq-ok 500 (marshal digitally_signed sct.1.1.1.1.0) sig is_sig,
    )

-- What add-chain and add-pre-chain do: an answer is the SCT of the leaf that the backend returned,
-- signed by the log, for the request that is built of the chain.
pub record IsIssued (li : LogInfo) (clock : ℤ) (time_millis : ℕ) (chain : List (List ℕ))
    (is_precert : Bool) (r : AddChainResponse) : Type 0 where
  pub queued : LogLeaf × List ℕ
  pub returned : LogLeaf
  pub logged : MerkleTreeLeaf
  pub sct : Sct
  pub is_queued : queued_leaf li clock time_millis chain is_precert ≡ ok queued
  pub is_returned : li.queue_leaves queued ≡ ok (some (returned ∷ []))
  pub is_logged : unmarshal_all merkle_tree_leaf returned.leaf_value ≡ ok logged
  pub is_sct : IsSctOf li.x509.sum256 li.signer logged sct
  pub is_response : IsResponseOf li.encode_to_string sct r

-- An answer of add-chain or add-pre-chain: the leaf that is built of the chain was sent to the
-- backend, which returned one leaf, and the answer has the fields of an SCT, with the log's ID and
-- signature, of the leaf that was returned.
pub add_chain_internal-IsIssued :
    (li : LogInfo) (clock : ℤ) (time_millis call : ℕ) (chain : List (List ℕ)) (is_precert : Bool)
    (r : AddChainResponse)
    → add_chain_internal li clock time_millis call chain is_precert ≡ ok r
    → IsIssued li clock time_millis chain is_precert r
unfolding add_chain_internal answered_leaf
add_chain_internal-IsIssued li clock time_millis call [] is_precert r h = absurd (err-ne_ok h)
add_chain_internal-IsIssued li clock time_millis call (first ∷ rest) is_precert r h =
    let (leaf, is_queued, h1) =
      >>=-eq-ok (queued_leaf li clock time_millis (first ∷ rest) is_precert) _ h in
    let (rsp, is_rsp, h2) = >>=-eq-ok (from_rpc (li.queue_leaves leaf)) _ h1 in
    let (returned, is_only, h3) = >>=-eq-ok (only_leaf rsp) _ h2 in
    let (logged, is_logged, h4) =
      >>=-eq-ok (or_status 500 (unmarshal_all merkle_tree_leaf returned.leaf_value)) _ h3 in
    let (sct, is_sct, h5) =
      >>=-eq-ok (or_status 500 (build_v1_sct li.x509.sum256 li.signer call logged)) _ h4 in
    let (sct_bytes, is_bytes, h6) =
      >>=-eq-ok (or_status 500 (marshal signed_certificate_timestamp sct)) _ h5 in
    let issued =
      build_v1_sct-IsSctOf li.x509.sum256 li.signer call logged sct
        (or_status-eq-ok 500 (build_v1_sct li.x509.sum256 li.signer call logged) sct is_sct) in
    record {
      queued = leaf;
      returned = returned;
      logged = logged;
      sct = sct;
      is_queued = is_queued;
      is_returned =
          from_rpc-eq-ok (li.queue_leaves leaf) rsp is_rsp
          ∙ ap ok (only_leaf-eq-ok rsp returned is_only);
      is_logged =
          or_status-eq-ok 500 (unmarshal_all merkle_tree_leaf returned.leaf_value) logged is_logged;
      is_sct = issued;
      is_response =
          add_chain_response-IsResponseOf li.x509.sum256 li.signer li.encode_to_string logged sct r
            issued h6;
    }

read_response :
    (encode : List ℕ → Text) (decode : Text → Option (List ℕ)) (sct : Sct) (log_id sig : List ℕ)
    → ((bs : List ℕ) → decode (encode bs) ≡ some bs)
    → log_id ≡ sct.1.0.0
    → length sct.1.0.0 ≡ 32
    → unmarshal_all digitally_signed sig ≡ ok sct.1.1.1.1.0
    → to_signed_certificate_timestamp decode (record {
      sct_version = sct_version sct;
      id = log_id;
      timestamp = sct_timestamp sct;
      extensions = encode (sct_extensions sct);
      signature = sig;
    })
      ≡ ok sct
unfolding to_signed_certificate_timestamp
read_response encode decode sct log_id sig inverse same long read =
    rw (ap length same ∙ long, inverse (sct_extensions sct), read)
      (ap
        (λ (k : List ℕ). ok (
          sct_version sct,
          ((k, tt), (sct_timestamp sct, (sct_extensions sct, (sct.1.1.1.1.0, tt)))),
        ))
        same)

read_tree_head :
    (sth : SignedTreeHead) (sig : List ℕ)
    → sth.version ≡ v1
    → length sth.sha256_root_hash ≡ 32
    → unmarshal_all digitally_signed sig ≡ ok sth.tree_head_signature
    → to_signed_tree_head (record {
      tree_size = sth.tree_size;
      timestamp = sth.timestamp;
      sha256_root_hash = sth.sha256_root_hash;
      tree_head_signature = sig;
    })
      ≡ ok (record sth { log_id = be_bytes 32 0 })
unfolding to_signed_tree_head
read_tree_head sth sig version long read = rw (long, read, version) refl

-- The clients of a log read back what it answers with: an SCT of version 1 with a log ID of 32 bytes
-- that is the log's, where base64 decoding undoes encoding, and a tree head of version 1 with a root
-- hash of 32 bytes, whose log ID the client leaves zero; the signatures are values of their Go type.
pub add_chain_response-to_signed :
    (sum256 : List ℕ → List ℕ) (signer : Signer) (encode : List ℕ → Text)
    (decode : Text → Option (List ℕ)) (sct : Sct) (r : AddChainResponse) (sth : SignedTreeHead)
    (s : GetSthResponse)
    → ((bs : List ℕ) → decode (encode bs) ≡ some bs)
    → get_ct_log_id sum256 signer ≡ some sct.1.0.0
    → length sct.1.0.0 ≡ 32
    → IsVal digitally_signed sct.1.1.1.1.0
    → add_chain_response sum256 signer encode sct ≡ ok r
    → sth.version ≡ v1
    → length sth.sha256_root_hash ≡ 32
    → IsVal digitally_signed sth.tree_head_signature
    → write_sth sth ≡ ok s
    → (to_signed_certificate_timestamp decode r ≡ ok sct)
      × (to_signed_tree_head s ≡ ok (record sth { log_id = be_bytes 32 0 }))
unfolding add_chain_response write_sth is_codable
add_chain_response-to_signed sum256 signer encode decode sct r sth s inverse is_id long sct_val h
      version hash_long sth_val k =
    let (log_id, got_id, h1) = >>=-eq-ok (or_missing 500 (get_ct_log_id sum256 signer)) _ h in
    let (sig, is_sig, h2) =
      >>=-eq-ok (or_status 500 (marshal digitally_signed sct.1.1.1.1.0)) _ h1 in
    let same : log_id ≡ sct.1.0.0 =
      some_inj (sym (or_missing-eq-ok 500 (get_ct_log_id sum256 signer) log_id got_id) ∙ is_id) in
    let (sig', is_sig', k1) =
      >>=-eq-ok (or_status 500 (marshal digitally_signed sth.tree_head_signature)) _ k in
    (
      subst (λ (x : AddChainResponse). to_signed_certificate_timestamp decode x ≡ ok sct)
          (ok_inj h2)
          (read_response encode decode sct log_id sig inverse same long (
            unmarshal_all-marshal digitally_signed sct.1.1.1.1.0 sig refl sct_val
              (or_status-eq-ok 500 (marshal digitally_signed sct.1.1.1.1.0) sig is_sig))),
      subst
          (λ (x : GetSthResponse).
            to_signed_tree_head x ≡ ok (record sth { log_id = be_bytes 32 0 }))
          (ok_inj k1)
          (read_tree_head sth sig' version hash_long (
            unmarshal_all-marshal digitally_signed sth.tree_head_signature sig' refl sth_val (
              or_status-eq-ok 500 (marshal digitally_signed sth.tree_head_signature) sig'
                is_sig'))),
    )
