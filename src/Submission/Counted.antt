-- ===== src/Submission/Counted.antt =====
-- submission/races.go: how many of the collected SCTs are of logs of a group.
use certificate_transparency.Prelude.{
  ℕ, ◌+◌, ◌≡◌, ap, Bool, true, false, Option, none, some, List, [], ◌∷◌, if◌then◌else◌, Bool-cases,
  inl, inr, arith,
}
use certificate_transparency.Prelude.Text.{Text, text_eq, Map, lookup, insert}
use certificate_transparency.Submission.State.{
  LogGroupInfo, has_text, groups_of_log, SubmissionResult, empty, failed, received, collect,
}
use certificate_transparency.Submission.Keys.{text_eq→eq}

-- The number of SCTs in a list that are of logs of a group.
unfoldable pub from_group : {S : Type 0} → List LogGroupInfo → Text → List (Text × S) → ℕ
from_group groups name [] = 0
from_group groups name ((url, sct) ∷ scts) =
    let rest = from_group groups name scts in
    if has_text name (groups_of_log groups url) then 1 + rest else rest

abbrev pub one_if : Bool → ℕ
one_if true = 1
one_if false = 0

module _ {S : Type 0} (groups : List LogGroupInfo) (name : Text) where
  abbrev pub weight : Text → SubmissionResult S → ℕ
  weight url empty = 0
  weight url failed = 0
  weight url (received sct) = one_if (has_text name (groups_of_log groups url))

  abbrev pub weight_of : Text → Option (SubmissionResult S) → ℕ
  weight_of url none = 0
  weight_of url (some r) = weight url r

  pub from_group-cons :
      (url : Text) (r : SubmissionResult S) (m : Map (SubmissionResult S))
      → from_group groups name (collect ((url, r) ∷ m))
        ≡ weight url r + from_group groups name (collect m)
  unfolding from_group collect
  from_group-cons url empty m = omega arith
  from_group-cons url failed m = omega arith
  from_group-cons url (received sct) m = ground arith

  pub from_group-insert :
      (url : Text) (r : SubmissionResult S) (m : Map (SubmissionResult S))
      → from_group groups name (collect (insert url r m)) + weight_of url (lookup url m)
        ≡ from_group groups name (collect m) + weight url r
  unfolding insert lookup
  from_group-insert url r [] = omega (arith, from_group-cons url r [])
  from_group-insert url r ((u, q) ∷ m) = elim (Bool-cases (text_eq u url)) [
    | inl same ↦
        let e : u ≡ url = text_eq→eq u url same in
        rw (same, insert)
          (omega (
            arith,
            from_group-cons u r m,
            from_group-cons u q m,
            ap (λ t. weight t r) e,
            ap (λ t. weight t q) e,
          ))
    | inr other ↦
        rw (other, insert)
          (omega (
            arith,
            from_group-cons u q (insert url r m),
            from_group-cons u q m,
            from_group-insert url r m,
          ))
  ]
