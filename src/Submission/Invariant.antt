-- ===== src/Submission/Invariant.antt =====
-- submission/races.go: a group that is complete has the SCTs that it wants.
use certificate_transparency.Prelude.{
  ℕ, ◌+◌, ◌≡◌, ◌≤◌, refl, sym, ap, ◌∙◌, Bool, true, false, Option, none, some, List, [],
  if◌then◌else◌, Bool-cases, inl, inr, arith,
}
use certificate_transparency.Prelude.Int.{ℤ, pos, negsuc, ltz}
use certificate_transparency.Prelude.Text.{Text, Map, lookup, insert}
use certificate_transparency.Submission.State.{
  LogGroupInfo, has_text, groups_of_log, SubmissionResult, empty, failed, received, SubmissionState,
  need_of, is_met, predz, take_needs, initial_needs, is_awaited, new_safe_submission_state, request,
  request_result, request_new, set_sct, set_result, group_complete, collect, collect_scts,
}
use certificate_transparency.Submission.Needs.{
  need, groups_of_log-IsDistinct, need-take_needs, need-take_needs_other,
}
use certificate_transparency.Submission.Counted.{from_group, one_if, weight_of, from_group-insert}

-- What is owed, as a natural number.
abbrev pub owed : ℤ → ℕ
owed (pos n) = n
owed (negsuc n) = 0

owed-predz : (z : ℤ) → owed z ≤ owed (predz z) + one_if (ltz (pos 0) z)
owed-predz z = ground arith

-- The states that requests and their answers lead to. An answer comes for a request whose result is
-- still pending.
pub data Reached {S : Type 0} (groups : List LogGroupInfo) : SubmissionState S → Type 0 where
  created : Reached groups (new_safe_submission_state groups)
  requested :
      (st : SubmissionState S) (url : Text)
      → Reached groups st
      → Reached groups ((request st url).1)
  answered :
      (st : SubmissionState S) (url : Text) (sct : Option S)
      → Reached groups st
      → lookup url st.results ≡ some empty
      → Reached groups (set_result st url sct)

-- The SCTs that a name wanted at first are collected or still owed.
pub record IsOwed {S : Type 0} (groups : List LogGroupInfo) (name : Text) (st : SubmissionState S)
    : Type 0 where
  pub same_groups : st.groups ≡ groups
  pub covered :
      owed (need name (initial_needs groups []))
      ≤ from_group groups name (collect st.results) + owed (need name st.group_needs)

module _ {S : Type 0} (groups : List LogGroupInfo) (name : Text) where
  created_IsOwed : IsOwed {S = S} groups name (new_safe_submission_state groups)
  unfolding new_safe_submission_state
  created_IsOwed = record { same_groups = refl; covered = omega arith }

  failed_IsOwed :
      (st : SubmissionState S) (url : Text) (r : SubmissionResult S)
      → IsOwed groups name st
      → weight_of groups name url (lookup url st.results) ≡ 0
      → IsOwed groups name (record st { results = insert url r st.results })
  failed_IsOwed st url r h none_there = record {
    same_groups = h.same_groups;
    covered = omega (arith, h.covered, from_group-insert groups name url r st.results);
  }

  request_new-IsOwed :
      (st : SubmissionState S) (url : Text) (b : Bool)
      → IsOwed groups name st
      → IsOwed groups name ((request_new st url b).1)
  request_new-IsOwed st url false h = h
  request_new-IsOwed st url true h = record { same_groups = h.same_groups; covered = h.covered }

  request_result-IsOwed :
      (st : SubmissionState S) (url : Text) (o : Option (SubmissionResult S))
      → lookup url st.results ≡ o
      → IsOwed groups name st
      → IsOwed groups name ((request_result st url o).1)
  request_result-IsOwed st url (some r) e h = h
  request_result-IsOwed st url none e h =
      request_new-IsOwed (record st { results = insert url empty st.results }) url
        (is_awaited st.group_needs (groups_of_log st.groups url))
        (failed_IsOwed st url empty h (ap (weight_of groups name url) e))

  requested_IsOwed :
      (st : SubmissionState S) (url : Text)
      → IsOwed groups name st
      → IsOwed groups name ((request st url).1)
  unfolding request
  requested_IsOwed st url h = request_result-IsOwed st url (lookup url st.results) refl h

  recorded_lem :
      (st : SubmissionState S) (url : Text) (sct : S) (wanted : Bool)
      → lookup url st.results ≡ some empty
      → from_group groups name
          (collect (if wanted then insert url (received sct) st.results else st.results))
        ≡ from_group groups name (collect st.results)
          + (if wanted then one_if (has_text name (groups_of_log groups url)) else 0)
  recorded_lem st url sct true pending = omega (
    arith,
    from_group-insert groups name url (received sct) st.results,
    ap (weight_of groups name url) pending,
  )
  recorded_lem st url sct false pending = omega arith

  -- The SCTs of the group that are recorded with one more, and what is owed after it.
  one_more :
      (st : SubmissionState S) (url : Text) (sct : S) (wanted : Bool) (after : Map ℤ)
      → IsOwed groups name st
      → lookup url st.results ≡ some empty
      → take_needs (groups_of_log st.groups url) st.group_needs ≡ (wanted, after)
      → owed (need name (initial_needs groups []))
        ≤ from_group groups name
            (collect (if wanted then insert url (received sct) st.results else st.results))
          + owed (need name after)
  one_more st url sct wanted after h pending taken =
      elim (Bool-cases (has_text name (groups_of_log groups url))) [
        | inr outside ↦
            let same : need name after ≡ need name st.group_needs =
              ap (λ (z : Bool × Map ℤ). need name z.1) (sym taken)
              ∙ need-take_needs_other name (groups_of_log st.groups url) st.group_needs
                  (ap (λ gs. has_text name (groups_of_log gs url)) h.same_groups ∙ outside) in
            omega (arith, h.covered, ap owed same, recorded_lem st url sct wanted pending)
        | inl inside ↦
            let (less, want) =
              need-take_needs name (groups_of_log st.groups url) st.group_needs
                (groups_of_log-IsDistinct st.groups url)
                (ap (λ gs. has_text name (groups_of_log gs url)) h.same_groups ∙ inside) in
            let now : need name after ≡ predz (need name st.group_needs) =
              ap (λ (z : Bool × Map ℤ). need name z.1) (sym taken) ∙ less in
            let added = recorded_lem st url sct wanted pending in
            (elim (Bool-cases (ltz (pos 0) (need name st.group_needs))) [
              | inl more ↦
                  let w : wanted ≡ true = ap (λ (z : Bool × Map ℤ). z.0) (sym taken) ∙ want more in
                  let gain : (if wanted
                        then one_if (has_text name (groups_of_log groups url))
                        else 0)
                      ≡ 1 =
                    rw (w, inside) refl in
                  omega (
                    arith,
                    h.covered,
                    ap owed now,
                    owed-predz (need name st.group_needs),
                    added,
                    gain,
                    ap one_if more,
                  )
              | inr enough ↦ omega (
                arith,
                h.covered,
                ap owed now,
                owed-predz (need name st.group_needs),
                added,
                ap one_if enough,
              )
            ])
      ]

  set_sct-IsOwed :
      (st : SubmissionState S) (url : Text) (sct : S)
      → IsOwed groups name st
      → lookup url st.results ≡ some empty
      → IsOwed groups name (set_sct st url sct)
  unfolding set_sct
  set_sct-IsOwed st url sct h pending = record {
    same_groups = h.same_groups;
    covered = one_more st url sct _ _ h pending refl;
  }

-- What a group wanted at first is collected or still owed, in every state that requests and answers
-- lead to, in any order.
pub Reached-IsOwed :
    {S : Type 0} (groups : List LogGroupInfo) (name : Text) (st : SubmissionState S)
    → Reached groups st
    → IsOwed groups name st
unfolding set_result
Reached-IsOwed groups name _ created = created_IsOwed groups name
Reached-IsOwed groups name _ (requested st url r) =
    requested_IsOwed groups name st url (Reached-IsOwed groups name st r)
Reached-IsOwed groups name _ (answered st url none r pending) =
    failed_IsOwed groups name st url failed (Reached-IsOwed groups name st r)
      (ap (weight_of groups name url) pending)
Reached-IsOwed groups name _ (answered st url (some sct) r pending) =
    set_sct-IsOwed groups name st url sct (Reached-IsOwed groups name st r) pending

-- A group that groupComplete reports as complete has its SCTs: among those that collectSCTs returns,
-- there are at least as many from logs of the group as it wanted at first, in whatever order the
-- logs were asked and answered.
pub group_complete-from_group :
    {S : Type 0} (groups : List LogGroupInfo) (name : Text) (st : SubmissionState S)
    → Reached groups st
    → group_complete st name ≡ true
    → owed (need name (initial_needs groups [])) ≤ from_group groups name (collect_scts st)
unfolding group_complete collect_scts
group_complete-from_group groups name st r done = omega (
  arith,
  (Reached-IsOwed groups name st r).covered,
  nothing_owed (lookup name st.group_needs) done,
)
  where
    nothing_owed : (n : Option ℤ) → is_met n ≡ true → owed (need_of n) ≡ 0
    nothing_owed n h = ground arith
