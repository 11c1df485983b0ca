-- ===== src/Policy/Groups.antt =====
-- ctpolicy/ctpolicy.go, chromepolicy.go and applepolicy.go: the groups of logs and how many SCTs are
-- wanted of each. The weights of the logs, which are floating point, are left out.
use certificate_transparency.Prelude.{
  Bool, true, false, not, ◌||◌, List, [], ◌∷◌, length, if◌then◌else◌,
}
use certificate_transparency.Prelude.Int.{ℤ, pos, ltz}
use certificate_transparency.Prelude.Outcome.{Outcome, ok, err, ◌>>=◌}
use certificate_transparency.Prelude.Text.{Text, codes, starts_with}
use certificate_transparency.Submission.State.{LogGroupInfo, add_name}
use certificate_transparency.Policy.Lifetime.{Date, lifetime_in_months}

-- loglist2's Operator: its e-mail addresses and the URLs of its logs.
pub record Operator : Type 0 where
  pub email : List Text
  pub logs : List Text

-- `strings.Contains`.
unfoldable pub contains : Text → Text → Bool
unfolding starts_with
contains [] part = starts_with [] part
contains (c ∷ cs) part =
    let rest = contains cs part in if starts_with (c ∷ cs) part then true else rest

abbrev pub is_google_address : List Text → Bool
is_google_address [] = false
is_google_address (e ∷ es) =
    contains e (codes "google-ct-logs@googlegroups") || is_google_address es

-- `GoogleOperated`.
unfoldable pub google_operated : Operator → Bool
unfolding contains
google_operated op = is_google_address op.email

pub data PolicyError : Type 0 where
  negative_inclusions too_few_logs : PolicyError

abbrev pub Result {ℓ} : Type ℓ → Type ℓ
Result A = Outcome PolicyError A

-- `setMinInclusions`: the group with the number assigned, which callers drop on an error.
unfoldable pub set_min_inclusions : LogGroupInfo → ℤ → Result LogGroupInfo
set_min_inclusions g i =
    if ltz i (pos 0)
    then err negative_inclusions
    else if ltz (pos (length g.log_urls)) i
    then err too_few_logs
    else ok (record g { min_inclusions = i })

-- The URLs of some logs, added to a set.
unfoldable pub add_urls : List Text → List Text → List Text
unfolding add_name
add_urls [] urls = urls
add_urls (l ∷ ls) urls = add_name l (add_urls ls urls)

-- `populate`.
unfoldable pub populate : (Operator → Bool) → List Operator → List Text
unfolding add_urls
populate included [] = []
populate included (op ∷ ops) =
    let rest = populate included ops in if included op then add_urls op.logs rest else rest

abbrev pub group_of : Text → Bool → List Text → LogGroupInfo
group_of name base urls = record {
  name = name;
  log_urls = urls;
  min_inclusions = pos 0;
  is_base = base;
}

-- `BaseGroupFor`.
unfoldable pub base_group_for : List Operator → ℤ → Result LogGroupInfo
unfolding populate set_min_inclusions
base_group_for approved inc_count =
    set_min_inclusions (group_of (codes "All-logs") true (populate (λ op. true) approved)) inc_count

-- The number of SCTs for a lifetime in months, in both policies.
unfoldable pub inc_count_for : ℤ → ℤ
inc_count_for m =
    if ltz m (pos 15)
    then pos 2
    else if not (ltz (pos 27) m)
    then pos 3
    else if not (ltz (pos 39) m)
    then pos 4
    else pos 5

-- `LogsByGroup` of AppleCTPolicy.
unfoldable pub apple_logs_by_group : Date → Date → List Operator → Result (List LogGroupInfo)
unfolding inc_count_for base_group_for lifetime_in_months
apple_logs_by_group start end approved = do
  base ← base_group_for approved (inc_count_for (lifetime_in_months start end))
  ok (base ∷ [])

-- `LogsByGroup` of ChromeCTPolicy.
unfoldable pub chrome_logs_by_group : Date → Date → List Operator → Result (List LogGroupInfo)
unfolding inc_count_for base_group_for lifetime_in_months google_operated populate
    set_min_inclusions
chrome_logs_by_group start end approved = do
  goog ←
      set_min_inclusions
        (group_of (codes "Google-operated") false (populate google_operated approved)) (pos 1)
  non_goog ←
      set_min_inclusions
        (group_of (codes "Non-Google-operated") false
          (populate (λ op. not (google_operated op)) approved))
        (pos 1)
  base ← base_group_for approved (inc_count_for (lifetime_in_months start end))
  ok (goog ∷ non_goog ∷ base ∷ [])
