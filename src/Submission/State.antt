-- ===== src/Submission/State.antt =====
-- submission/races.go: `safeSubmissionState`, the shared state of the requests to the logs of all
-- groups. Each method holds the lock, and so is one step.
use certificate_transparency.Prelude.{
  zero, suc, Bool, true, false, ◌||◌, not, Option, none, some, List, [], ◌∷◌, if◌then◌else◌,
}
use certificate_transparency.Prelude.Int.{ℤ, pos, negsuc, ltz}
use certificate_transparency.Prelude.Text.{Text, text_eq, Map, lookup, insert}

-- LogGroupInfo of package ctpolicy, of which the URLs of the group's logs, the number of SCTs it
-- wants and whether it is the group of all logs are read here.
pub record LogGroupInfo : Type 0 where
  pub name : Text
  pub log_urls : List Text
  pub min_inclusions : ℤ
  pub is_base : Bool

unfoldable pub has_text : Text → List Text → Bool
unfolding text_eq
has_text x [] = false
has_text x (y ∷ ys) = text_eq y x || has_text x ys

unfoldable pub add_name : Text → List Text → List Text
unfolding has_text
add_name x xs = if has_text x xs then xs else x ∷ xs

-- `GroupByLogs`, as a function: the set of the names of the groups that a log is in.
unfoldable pub groups_of_log : List LogGroupInfo → Text → List Text
unfolding has_text add_name
groups_of_log [] url = []
groups_of_log (g ∷ gs) url =
    let rest = groups_of_log gs url in
    if has_text url g.log_urls then add_name g.name rest else rest

-- `submissionResult`: an SCT, or none with or without an error.
pub data SubmissionResult (S : Type 0) : Type 0 where
  empty : SubmissionResult S
  failed : SubmissionResult S
  received : S → SubmissionResult S

-- `cancels` has the URLs whose entry is not nil; what a cancel function does is not modelled.
pub record SubmissionState (S : Type 0) : Type 0 where
  pub groups : List LogGroupInfo
  pub group_needs : Map ℤ
  pub results : Map (SubmissionResult S)
  pub cancels : List Text

-- A missing key of `groupNeeds` reads as 0.
abbrev pub need_of : Option ℤ → ℤ
need_of none = pos 0
need_of (some n) = n

abbrev pub predz : ℤ → ℤ
predz (pos zero) = negsuc 0
predz (pos (suc n)) = pos n
predz (negsuc n) = negsuc (suc n)

-- A name to which SCTs are still owed.
unfoldable pub is_awaited : Map ℤ → List Text → Bool
unfolding lookup
is_awaited needs [] = false
is_awaited needs (g ∷ gs) =
    let rest = is_awaited needs gs in if ltz (pos 0) (need_of (lookup g needs)) then true else rest

-- The loop of `setResult` over the groups of a log: whether one of them needs the SCT, and what
-- they need afterwards.
unfoldable pub take_needs : List Text → Map ℤ → Bool × Map ℤ
unfolding lookup insert
take_needs [] needs = (false, needs)
take_needs (g ∷ gs) needs =
    let need = need_of (lookup g needs) in
    let (wanted, after) = take_needs gs (insert g (predz need) needs) in
    (ltz (pos 0) need || wanted, after)

unfoldable pub initial_needs : List LogGroupInfo → Map ℤ → Map ℤ
unfolding insert
initial_needs [] needs = needs
initial_needs (g ∷ gs) needs = initial_needs gs (insert g.name g.min_inclusions needs)

abbrev pub is_met : Option ℤ → Bool
is_met none = true
is_met (some needs) = not (ltz (pos 0) needs)

module _ {S : Type 0} where
  -- `newSafeSubmissionState`.
  unfoldable pub new_safe_submission_state : List LogGroupInfo → SubmissionState S
  unfolding initial_needs
  new_safe_submission_state groups = record {
    groups = groups;
    group_needs = initial_needs groups [];
    results = [];
    cancels = [];
  }

  abbrev pub request_new : SubmissionState S → Text → Bool → Bool × SubmissionState S
  request_new st url false = (false, st)
  request_new st url true = (true, record st { cancels = url ∷ st.cancels })

  abbrev pub request_result :
      SubmissionState S → Text → Option (SubmissionResult S) → Bool × SubmissionState S
  request_result st url (some r) = (false, st)
  request_result st url none =
      request_new (record st { results = insert url empty st.results }) url
        (is_awaited st.group_needs (groups_of_log st.groups url))

  -- `request`: whether the log is to be asked.
  unfoldable pub request : SubmissionState S → Text → Bool × SubmissionState S
  unfolding lookup insert groups_of_log is_awaited
  request st url = request_result st url (lookup url st.results)

  unfoldable pub still_awaited : SubmissionState S → List Text → List Text
  unfolding groups_of_log is_awaited
  still_awaited st [] = []
  still_awaited st (url ∷ urls) =
      let rest = still_awaited st urls in
      if is_awaited st.group_needs (groups_of_log st.groups url) then url ∷ rest else rest

  -- An SCT that some group needs is recorded, another is dumped; requests that no group awaits any
  -- more are cancelled.
  unfoldable pub set_sct : SubmissionState S → Text → S → SubmissionState S
  unfolding take_needs groups_of_log insert still_awaited
  set_sct st url sct =
      let (wanted, after) = take_needs (groups_of_log st.groups url) st.group_needs in
      let st' = record st {
        group_needs = after;
        results = if wanted then insert url (received sct) st.results else st.results;
      } in
      record st' { cancels = still_awaited st' st.cancels }

  -- `setResult`.
  unfoldable pub set_result : SubmissionState S → Text → Option S → SubmissionState S
  unfolding set_sct insert
  set_result st url none = record st { results = insert url failed st.results }
  set_result st url (some sct) = set_sct st url sct

  -- `groupComplete`.
  unfoldable pub group_complete : SubmissionState S → Text → Bool
  unfolding lookup
  group_complete st name = is_met (lookup name st.group_needs)

  unfoldable pub collect : Map (SubmissionResult S) → List (Text × S)
  collect [] = []
  collect ((url, received sct) ∷ m) = (url, sct) ∷ collect m
  collect ((url, empty) ∷ m) = collect m
  collect ((url, failed) ∷ m) = collect m

  -- `collectSCTs`.
  unfoldable pub collect_scts : SubmissionState S → List (Text × S)
  unfolding collect
  collect_scts st = collect st.results
