-- ===== src/Ctfe/Proofs.antt =====
-- trillian/ctfe/handlers.go: the consistency proofs that a log answers with.
use mathlib.Core.Path.{ap₂}
use certificate_transparency.Prelude.{
  ℕ, ◌%◌, ◌^◌, ◌≡◌, ◌≤◌, ◌<◌, ◌⊎◌, inl, inr, refl, ap, subst, sym, ◌∙◌, Bool, true, false, ◌||◌,
  List, [], ◌∷◌, Option, none, some, ltb, ltb→ge, ◌==◌, length, All, if◌then◌else◌, arith,
}
use certificate_transparency.Prelude.Int.{ℤ, pos, negsuc, ltz, eqz}
use certificate_transparency.Prelude.Int64.{uint64_of}
use certificate_transparency.Prelude.Outcome.{ok, err, panic, ◌>>=◌, >>=-eq-ok, ok_inj}
use certificate_transparency.Prelude.Text.{Text}
use certificate_transparency.Ctfe.Params.{
  parse_int, missing, negative, not_a_range, parse_get_sth_consistency_range, is_empty,
}
use certificate_transparency.Ctfe.Backend.{Handled, Rpc, from_rpc, or_status, or_missing}
use certificate_transparency.Ctfe.Calls.{
  or_status-eq-ok, from_rpc-eq-ok, or_missing-eq-ok, one_passed, tested,
}
use certificate_transparency.Ctfe.Bounds.{parse_int_bound}
use certificate_transparency.Ctfe.Audit.{
  Hashes, check_audit_path, ConsistencyResponse, get_sth_consistency,
}

-- Every hash of a proof has the length of SHA-256.
abbrev pub AreHashes : Hashes → Type 0
AreHashes hashes = All (λ (node : List ℕ). length node ≡ 32) hashes

hashes_lem : (a b : Bool) → (if a then b else false) ≡ true → (a ≡ true) × (b ≡ true)
hashes_lem a b h = ground arith

pub check_audit_path-AreHashes :
    (hashes : Hashes) → check_audit_path hashes ≡ true → AreHashes hashes
unfolding check_audit_path
check_audit_path-AreHashes [] h = tt
check_audit_path-AreHashes (node ∷ nodes) h =
    let (long, rest) = hashes_lem (length node == 32) (check_audit_path nodes) h in
    (ground arith, check_audit_path-AreHashes nodes rest)

consistency_bounds :
    (first_val second_val : Text) (r : ℤ × ℤ)
    → parse_get_sth_consistency_range first_val second_val ≡ ok r
    → (m : ℕ) × (n : ℕ) × (r ≡ (pos m, pos n))
      × (parse_int first_val ≡ ok (pos m))
      × (parse_int second_val ≡ ok (pos n))
      × (m ≤ n)
unfolding parse_get_sth_consistency_range
consistency_bounds first_val second_val r h =
    let (some_first, h1) = one_passed (is_empty first_val) missing _ r h in
    let (some_second, h2) = one_passed (is_empty second_val) missing _ r h1 in
    let (first, is_first, h3) = >>=-eq-ok (parse_int first_val) _ h2 in
    let (second, is_second, h4) = >>=-eq-ok (parse_int second_val) _ h3 in
    let (no_negative, h5) = one_passed (ltz first (pos 0) || ltz second (pos 0)) negative _ r h4 in
    let (in_order, h6) = one_passed (ltz second first) not_a_range _ r h5 in
    go first second is_first is_second no_negative in_order (ok_inj h6)
  where
    go :
        (first second : ℤ)
        → parse_int first_val ≡ ok first
        → parse_int second_val ≡ ok second
        → ltz first (pos 0) || ltz second (pos 0) ≡ false
        → ltz second first ≡ false
        → (first, second) ≡ r
        → (m : ℕ) × (n : ℕ) × (r ≡ (pos m, pos n))
          × (parse_int first_val ≡ ok (pos m))
          × (parse_int second_val ≡ ok (pos n))
          × (m ≤ n)
    go (pos m) (pos n) is_first is_second signs in_order e =
        (m, n, sym e, is_first, is_second, ltb→ge n m in_order)
    go (pos m) (negsuc n) is_first is_second signs in_order e = cc
    go (negsuc m) second is_first is_second signs in_order e = cc

-- A consistency proof that a log answers with, of the parameters and the backend.
pub record IsConsistency (backend : ℤ → ℤ → Rpc ConsistencyResponse) (first_val second_val : Text)
    (hashes : Hashes) : Type 0 where
  pub first : ℕ
  pub second : ℕ
  pub is_first : parse_int first_val ≡ ok (pos first)
  pub is_second : parse_int second_val ≡ ok (pos second)
  pub is_ordered : first ≤ second
  pub is_proof :
      ((first ≡ 0) × (hashes ≡ []))
      ⊎ ((size : ℕ) × (second ≤ size)
          × (backend (pos first) (pos second)
              ≡ ok (record { proof = some hashes; tree_size = some size }))
          × AreHashes hashes)

pub tree_covers : (size n : ℕ) → n < 2 ^ 63 → ltb size (n % 2 ^ 64) ≡ false → n ≤ size
tree_covers size n small h = ground arith

-- A proof that passes the check of its hashes.
checked :
    (proof : Option Hashes) (hashes : Hashes)
    → ◌≡◌ {A = Handled Hashes}
        (elim proof [
          | none ↦ panic
          | some path ↦ if check_audit_path path then ok path else err 500
        ])
        (ok hashes)
    → (proof ≡ some hashes) × AreHashes hashes
checked none hashes h = cc
checked (some path) hashes h =
    let (good, h1) = tested (check_audit_path path) 500 (ok path) hashes h in
    let same : path ≡ hashes = ok_inj h1 in
    (ap some same, subst AreHashes same (check_audit_path-AreHashes path good))

-- Which of two answers was given.
branched :
    {A : Type 0} (b : Bool) (a : A) (r : Handled A) (x : A)
    → (if b then ok a else r) ≡ ok x
    → ((b ≡ true) × (a ≡ x)) ⊎ ((b ≡ false) × (r ≡ ok x))
branched true a r x h = inl (refl, ok_inj h)
branched false a r x h = inr (refl, h)

module _ (backend : ℤ → ℤ → Rpc ConsistencyResponse) where
  asked :
      (m n : ℕ) (hashes : Hashes)
      → n < 2 ^ 63
      → (if eqz (pos m) (pos 0) then ok [] else (do
        rsp ← from_rpc (backend (pos m) (pos n))
        size ← or_missing 500 rsp.tree_size
        if ltb size (uint64_of (pos n)) then err 400 else elim rsp.proof [
          | none ↦ panic
          | some path ↦ if check_audit_path path then ok path else err 500
        ]))
        ≡ ok hashes
      → ((m ≡ 0) × (hashes ≡ []))
        ⊎ ((size : ℕ) × (n ≤ size)
            × (backend (pos m) (pos n) ≡ ok (record { proof = some hashes; tree_size = some size }))
            × AreHashes hashes)
  asked m n hashes small h = elim (branched (eqz (pos m) (pos 0)) [] _ hashes h) [
    | inl (empty, none_needed) ↦ inl (ground arith, sym none_needed)
    | inr (not_empty, h0) ↦
        let (rsp, answered, h1) = >>=-eq-ok (from_rpc (backend (pos m) (pos n))) _ h0 in
        let (size, sized, h2) = >>=-eq-ok (or_missing 500 rsp.tree_size) _ h1 in
        let (in_tree, h3) = one_passed (ltb size (uint64_of (pos n))) 400 _ hashes h2 in
        let (is_proof, good) = checked rsp.proof hashes h3 in
        let is_size = or_missing-eq-ok 500 rsp.tree_size size sized in
        inr (
          size,
          tree_covers size n small in_tree,
          from_rpc-eq-ok (backend (pos m) (pos n)) rsp answered
              ∙ ap₂ (λ (p : Option Hashes) (t : Option ℕ). ok (record { proof = p; tree_size = t }))
                  is_proof is_size,
          good,
        )
  ]

-- The consistency proofs that get-sth-consistency answers with, whatever the backend does: the
-- parameters are numbers that are not negative and in order; from an empty tree the proof is empty,
-- and else it is the one that the backend gave for them, with a tree at least as big as the second
-- number, and its hashes have 32 bytes each.
pub get_sth_consistency-IsConsistency :
    (backend : ℤ → ℤ → Rpc ConsistencyResponse) (first_val second_val : Text) (hashes : Hashes)
    → get_sth_consistency backend first_val second_val ≡ ok hashes
    → IsConsistency backend first_val second_val hashes
unfolding get_sth_consistency
get_sth_consistency-IsConsistency backend first_val second_val hashes h =
    let (r, is_r, h1) =
      >>=-eq-ok (or_status 400 (parse_get_sth_consistency_range first_val second_val)) _ h in
    let (m, n, same, is_first, is_second, ordered) =
      consistency_bounds first_val second_val r
        (or_status-eq-ok 400 (parse_get_sth_consistency_range first_val second_val) r is_r) in
    record {
      first = m;
      second = n;
      is_first = is_first;
      is_second = is_second;
      is_ordered = ordered;
      is_proof = asked backend m n hashes (parse_int_bound second_val n is_second) (rw same at h1);
    }
