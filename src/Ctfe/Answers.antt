-- ===== src/Ctfe/Answers.antt =====
-- trillian/ctfe/serialize.go and sth.go: the tree heads and SCTs that a log gives.
use certificate_transparency.Prelude.{
  ℕ, ◌/◌, ◌≡◌, ◌≢◌, inl, inr, refl, ap, subst, sym, ◌∙◌, false, List, Option, none, some,
  Bool-cases, some_inj, ◌==◌, length, arith,
}
use certificate_transparency.Prelude.Outcome.{
  ok, err, panic, diverge, ◌>>=◌, >>=-eq-ok, ok_inj, err-ne_ok,
}
use certificate_transparency.Ct.Types.{
  v1, MerkleTreeLeaf, leaf_entry, entry_timestamp, entry_extensions, TimestampedEntry, Sct,
  sct_version, sct_timestamp, sct_extensions, SignedTreeHead,
}
use certificate_transparency.Ct.Signed.{
  deref, serialize_sct_signature_input, serialize_sth_signature_input,
}
use certificate_transparency.Ct.Whole.{deref-ok}
use certificate_transparency.Ctfe.Signing.{
  Signer, SignError, Result, SignatureCache, new_cache, serialized, or_error, sign_bytes,
  sign_v1_tree_head, sct_input, get_ct_log_id, build_v1_sct, no_log_id,
}
use certificate_transparency.Ctfe.TreeHeads.{
  LogRoot, Quota, get_signed_log_root, unsigned_tree_head, signed_tree_head, get_sth,
}
use certificate_transparency.Ctfe.Served.{
  IsSignatureOf, IsFaithful, sign_bytes-IsSignatureOf, serialized-ok, sign_v1_tree_head-IsHead,
}

not-zero : (n : ℕ) → (n == 0) ≡ false → n ≢ 0
not-zero n h = λ e. ground arith

or_error-ok {ℓ} :
    {A : Type ℓ} (e : SignError) (o : Option A) (a : A) → or_error e o ≡ ok a → o ≡ some a
or_error-ok e none a h = cc
or_error-ok e (some b) a h = ap some (ok_inj h)

-- What GetLatestSignedLogRoot answers, for whom a request is charged to.
abbrev pub GetRoot : Type 0
GetRoot = Option (List (List ℕ)) → Option (Option (List ℕ))

module _ (unmarshal_binary : List ℕ → Option LogRoot) (sum256 : List ℕ → List ℕ)
    (signer : Signer) where
  -- The caches that a log's getter of tree heads can have, after any calls. The backend answers each
  -- call in its own way, as its tree grows.
  pub data Reached : SignatureCache → Type 0 where
    started : Reached new_cache
    served :
        (get_root : GetRoot) (cache : SignatureCache) (call : ℕ) (quota : Quota)
        → Reached cache
        → Reached ((get_sth get_root unmarshal_binary sum256 signer call quota cache).1)

  -- A tree head of the log's latest root that is signed.
  pub record IsTreeHead (get_root : GetRoot) (quota : Quota) (sth : SignedTreeHead) : Type 0 where
    pub root : LogRoot
    pub sth_bytes : List ℕ
    pub is_root : get_signed_log_root get_root unmarshal_binary quota ≡ ok root
    pub is_version : sth.version ≡ v1
    pub is_size : sth.tree_size ≡ root.tree_size
    pub is_timestamp : sth.timestamp ≡ root.timestamp_nanos / 1000 / 1000
    pub is_hash : sth.sha256_root_hash ≡ root.root_hash
    pub is_bytes : serialize_sth_signature_input sth ≡ ok sth_bytes
    pub is_signature : IsSignatureOf sum256 signer sth_bytes sth.tree_head_signature
    pub is_not_empty : length (sth.tree_head_signature).1.0 ≢ 0

  get_sth-IsFaithful :
      (get_root : GetRoot) (call : ℕ) (quota : Quota) (cache : SignatureCache)
      → IsFaithful sum256 signer cache
      → IsFaithful sum256 signer
          ((get_sth get_root unmarshal_binary sum256 signer call quota cache).1)
  unfolding get_sth
  get_sth-IsFaithful get_root call quota cache faithful = go _ refl
    where
      go :
          (o : Result (SignedTreeHead × SignatureCache))
          → (get_signed_log_root get_root unmarshal_binary quota >>= λ root.
              sign_v1_tree_head sum256 signer call (unsigned_tree_head root) cache)
            ≡ o
          → IsFaithful sum256 signer ((signed_tree_head cache o).1)
      go (err e) h = faithful
      go panic h = faithful
      go diverge h = faithful
      go (ok r) h =
          let (root, is_root, h1) =
            >>=-eq-ok (get_signed_log_root get_root unmarshal_binary quota) _ h in
          (sign_v1_tree_head-IsHead sum256 signer call (unsigned_tree_head root) cache r faithful
            h1).2.is_faithful

  Reached-IsFaithful : (cache : SignatureCache) → Reached cache → IsFaithful sum256 signer cache
  Reached-IsFaithful cache started = inl refl
  Reached-IsFaithful cache (served get_root before call quota reached) =
      get_sth-IsFaithful get_root call quota before (Reached-IsFaithful before reached)

  -- The tree heads that a log answers with: whatever calls there were before, so that the signature
  -- may be one from the cache, an answer has the size, the time in milliseconds and the hash of the
  -- latest root of the backend, and its signature is one that the log's signer makes of the hash of
  -- the bytes of this tree head, and is not empty.
  pub get_sth-IsTreeHead :
      (get_root : GetRoot) (call : ℕ) (quota : Quota) (cache : SignatureCache)
      (sth : SignedTreeHead)
      → Reached cache
      → (get_sth get_root unmarshal_binary sum256 signer call quota cache).0 ≡ ok sth
      → IsTreeHead get_root quota sth
  unfolding get_sth serialize_sth_signature_input
  get_sth-IsTreeHead get_root call quota cache sth reached h = go _ refl h
    where
      go :
          (o : Result (SignedTreeHead × SignatureCache))
          → (get_signed_log_root get_root unmarshal_binary quota >>= λ root.
              sign_v1_tree_head sum256 signer call (unsigned_tree_head root) cache)
            ≡ o
          → (signed_tree_head cache o).0 ≡ ok sth
          → IsTreeHead get_root quota sth
      go (err e) h answer = absurd (err-ne_ok answer)
      go panic h answer = cc
      go diverge h answer = cc
      go (ok r) h answer =
          let (root, is_root, h1) =
            >>=-eq-ok (get_signed_log_root get_root unmarshal_binary quota) _ h in
          let (sth_bytes, is_bytes, head) =
            sign_v1_tree_head-IsHead sum256 signer call (unsigned_tree_head root) cache r
              (Reached-IsFaithful cache reached) h1 in
          elim (Bool-cases (length (r.0.tree_head_signature).1.0 == 0)) [
            | inl empty ↦ absurd (err-ne_ok (rw empty at answer))
            | inr filled ↦
                subst (IsTreeHead get_root quota) (sym head.is_head ∙ ok_inj (rw filled at answer))
                  (record {
                    root = root;
                    sth_bytes = sth_bytes;
                    is_root = is_root;
                    is_version = refl;
                    is_size = refl;
                    is_timestamp = refl;
                    is_hash = refl;
                    is_bytes = is_bytes;
                    is_signature = head.is_signature;
                    is_not_empty = not-zero (length (head.sig).1.0) (
                        sym (
                          ap (λ (t : SignedTreeHead). length (t.tree_head_signature).1.0 == 0)
                            head.is_head)
                        ∙ filled);
                  })
          ]

-- An SCT of a leaf.
pub record IsSctOf (sum256 : List ℕ → List ℕ) (signer : Signer) (leaf : MerkleTreeLeaf) (sct : Sct)
    : Type 0 where
  pub entry : TimestampedEntry
  pub public_key : List ℕ
  pub sct_bytes : List ℕ
  pub is_entry : leaf_entry leaf ≡ some entry
  pub is_key : signer.marshal_pkix_public_key ≡ some public_key
  pub is_version : sct_version sct ≡ v1
  pub is_log_id : sct.1.0.0 ≡ sum256 public_key
  pub is_timestamp : sct_timestamp sct ≡ entry_timestamp entry
  pub is_extensions : sct_extensions sct ≡ entry_extensions entry
  pub is_bytes : serialize_sct_signature_input sct leaf ≡ ok sct_bytes
  pub is_signature : IsSignatureOf sum256 signer sct_bytes sct.1.1.1.1.0

pub log_id_lem :
    (sum256 : List ℕ → List ℕ) (signer : Signer) (log_id : List ℕ)
    → get_ct_log_id sum256 signer ≡ some log_id
    → (key : List ℕ) × (signer.marshal_pkix_public_key ≡ some key) × (log_id ≡ sum256 key)
unfolding get_ct_log_id
log_id_lem sum256 signer log_id h' = go signer.marshal_pkix_public_key refl h'
  where
    go :
        (o : Option (List ℕ))
        → signer.marshal_pkix_public_key ≡ o
        → (elim o [ none ↦ none | some key ↦ some (sum256 key) ]) ≡ some log_id
        → (key : List ℕ) × (signer.marshal_pkix_public_key ≡ some key) × (log_id ≡ sum256 key)
    go none is_o e = cc
    go (some key) is_o e = (key, is_o, sym (some_inj e))

-- The SCT that is built for a leaf has version 1, the hash of the log's key, the timestamp and the
-- extensions of the leaf, and a signature that the log's signer makes of the hash of the bytes that
-- are signed for this SCT and this leaf.
pub build_v1_sct-IsSctOf :
    (sum256 : List ℕ → List ℕ) (signer : Signer) (call : ℕ) (leaf : MerkleTreeLeaf) (sct : Sct)
    → build_v1_sct sum256 signer call leaf ≡ ok sct
    → IsSctOf sum256 signer leaf sct
unfolding build_v1_sct serialize_sct_signature_input
build_v1_sct-IsSctOf sum256 signer call leaf sct h =
    let (e, is_e, h1) = >>=-eq-ok (serialized (deref (leaf_entry leaf))) _ h in
    let (input, is_input, h2) =
      >>=-eq-ok (serialized (serialize_sct_signature_input (sct_input e) leaf)) _ h1 in
    let (sig, is_sig, h3) = >>=-eq-ok (sign_bytes sum256 signer call input) _ h2 in
    let (log_id, is_log_id, h4) =
      >>=-eq-ok (or_error no_log_id (get_ct_log_id sum256 signer)) _ h3 in
    let (key, is_key, hashed) =
      log_id_lem sum256 signer log_id
        (or_error-ok no_log_id (get_ct_log_id sum256 signer) log_id is_log_id) in
    subst (IsSctOf sum256 signer leaf) (ok_inj h4) (record {
      entry = e;
      public_key = key;
      sct_bytes = input;
      is_entry = deref-ok (leaf_entry leaf) e (serialized-ok (deref (leaf_entry leaf)) e is_e);
      is_key = is_key;
      is_version = refl;
      is_log_id = hashed;
      is_timestamp = refl;
      is_extensions = refl;
      is_bytes = serialized-ok (serialize_sct_signature_input (sct_input e) leaf) input is_input;
      is_signature = sign_bytes-IsSignatureOf sum256 signer call input sig is_sig;
    })
