-- ===== src/Submission/Tests.antt =====
-- submission/races.go: a run of the submission state, and the theorems on it.
use certificate_transparency.Prelude.{ℕ, ◌≡◌, ◌≤◌, refl, true, false, some, List, [], ◌∷◌}
use certificate_transparency.Prelude.Int.{pos}
use certificate_transparency.Prelude.Text.{codes}
use certificate_transparency.Submission.State.{
  LogGroupInfo, SubmissionState, initial_needs, new_safe_submission_state, request, set_result,
  group_complete, collect_scts,
}
use certificate_transparency.Submission.Needs.{need}
use certificate_transparency.Submission.Counted.{from_group}
use certificate_transparency.Submission.Invariant.{
  owed, Reached, created, requested, answered, group_complete-from_group,
}

abbrev all_logs : LogGroupInfo
all_logs = record {
  name = codes "All";
  log_urls = codes "a" ∷ codes "b" ∷ [];
  min_inclusions = pos 1;
  is_base = true;
}

abbrev google : LogGroupInfo
google = record {
  name = codes "G";
  log_urls = codes "b" ∷ [];
  min_inclusions = pos 1;
  is_base = false;
}

abbrev both : List LogGroupInfo
both = all_logs ∷ google ∷ []

-- Log b is asked and answers with the SCT 7.
abbrev asked : SubmissionState ℕ
asked = (request (new_safe_submission_state both) (codes "b")).1

abbrev after : SubmissionState ℕ
after = set_result asked (codes "b") (some 7)

-- Its SCT is enough for both groups; that of log a is not needed any more.
complete_after : group_complete after (codes "All") ≡ true
unfolding group_complete set_result request new_safe_submission_state
complete_after = refl

not_asked : (request after (codes "a")).0 ≡ false
unfolding set_result request new_safe_submission_state
not_asked = refl

after-Reached : Reached both after
unfolding request new_safe_submission_state
after-Reached =
    answered asked (codes "b") (some 7)
      (requested (new_safe_submission_state both) (codes "b") created) refl

group_complete-from_group_example :
    owed (need (codes "All") (initial_needs both []))
    ≤ from_group both (codes "All") (collect_scts after)
group_complete-from_group_example =
    group_complete-from_group both (codes "All") after after-Reached complete_after
