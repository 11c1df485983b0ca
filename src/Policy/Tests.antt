-- ===== src/Policy/Tests.antt =====
-- ctpolicy: runs on a small list of logs, and the theorems on them.
use certificate_transparency.Prelude.{◌≡◌, refl, true, false, [], ◌∷◌}
use certificate_transparency.Prelude.Int.{pos}
use certificate_transparency.Prelude.Outcome.{ok, err}
use certificate_transparency.Prelude.Text.{codes}
use certificate_transparency.Submission.State.{LogGroupInfo}
use certificate_transparency.Policy.Lifetime.{Date, lifetime_in_months}
use certificate_transparency.Policy.Groups.{
  Operator, apple_logs_by_group, chrome_logs_by_group, too_few_logs,
}
use certificate_transparency.Policy.Satisfied.{IsChrome, IsApple}
use certificate_transparency.Policy.Given.{chrome_logs_by_group-IsChrome}

abbrev start : Date
start = record { year = 2019; month = 3; day = 25 }

abbrev end : Date
end = record { year = 2020; month = 6; day = 24 }

-- A day is missing to 15 months.
fourteen : lifetime_in_months start end ≡ pos 14
unfolding lifetime_in_months
fourteen = refl

abbrev google : Operator
google = record { email = codes "google-ct-logs@googlegroups.com" ∷ []; logs = codes "a" ∷ [] }

abbrev other : Operator
other = record { email = codes "ct@example.com" ∷ []; logs = codes "b" ∷ [] }

too_few : chrome_logs_by_group start end (google ∷ []) ≡ err too_few_logs
unfolding chrome_logs_by_group
too_few = refl

abbrev google_group : LogGroupInfo
google_group = record {
  name = codes "Google-operated";
  log_urls = codes "a" ∷ [];
  min_inclusions = pos 1;
  is_base = false;
}

abbrev other_group : LogGroupInfo
other_group = record {
  name = codes "Non-Google-operated";
  log_urls = codes "b" ∷ [];
  min_inclusions = pos 1;
  is_base = false;
}

abbrev base_group : LogGroupInfo
base_group = record {
  name = codes "All-logs";
  log_urls = codes "a" ∷ codes "b" ∷ [];
  min_inclusions = pos 2;
  is_base = true;
}

given :
    chrome_logs_by_group start end (google ∷ other ∷ [])
    ≡ ok (google_group ∷ other_group ∷ base_group ∷ [])
unfolding chrome_logs_by_group
given = refl

chrome_logs_by_group-IsChrome_example :
    IsChrome start end (google ∷ other ∷ []) (chrome_logs_by_group start end (google ∷ other ∷ []))
    × IsApple start end (google ∷ other ∷ []) (apple_logs_by_group start end (google ∷ other ∷ []))
chrome_logs_by_group-IsChrome_example =
    chrome_logs_by_group-IsChrome start end (google ∷ other ∷ [])
