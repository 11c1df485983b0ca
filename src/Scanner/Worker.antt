-- ===== src/Scanner/Worker.antt =====
-- scanner/fetcher.go: runWorker; client/getentries.go: GetRawEntries.
use certificate_transparency.Prelude.{
  ℕ, zero, suc, Bool, List, [], ◌∷◌, ◌++◌, Option, none, some, length, if◌then◌else◌,
}
use certificate_transparency.Prelude.Int.{ℤ, pos, ltz}
use certificate_transparency.Prelude.Int64.{add64, int64_of, lez}
use certificate_transparency.Scanner.Generator.{FetchRange, Fetcher, Turn, prepare, generator}

-- An iteration of a worker finds its context done, or it asks the log, which fails or answers.
pub data Response (E : Type 0) : Type 0 where
  context_done : Response E
  answered : Option (List E) → Response E

pub record EntryBatch (E : Type 0) : Type 0 where
  pub start : ℤ
  pub entries : List E

-- How a worker stands: its ranges are fetched, its context is done, or it is at work.
pub data Ending : Type 0 where
  complete closed waiting : Ending

pub record Fetched (E : Type 0) : Type 0 where
  pub batches : List (EntryBatch E)
  pub tries : ℕ
  pub ending : Ending

-- `GetRawEntries`, with what the log answers.
unfoldable pub get_raw_entries {ℓ} : {A : Type ℓ} → ℤ → ℤ → Option A → Option A
get_raw_entries start end answer =
    if ltz end (pos 0) then none else if ltz end start then none else answer

module _ {E : Type 0} (server : ℕ → ℤ → ℤ → Response E) where
  abbrev pub deliver : ℤ → List E → Fetched E → Fetched E
  deliver start entries f = record f {
    batches = record { start = start; entries = entries } ∷ f.batches;
  }

  -- The inner loop of `runWorker`, for a number of tries. What the server does depends on the tries
  -- that are left, so that it may differ from one to the next.
  unfoldable pub fetch_range : ℕ → ℤ → ℤ → Fetched E
  unfolding get_raw_entries
  fetch_range zero start end = record {
    batches = [];
    tries = 0;
    ending = if lez start end then waiting else complete;
  }
  fetch_range (suc tries) start end =
      if lez start end
      then elim (server tries start end) [
        | context_done ↦ record { batches = []; tries = tries; ending = closed }
        | answered answer ↦ elim (get_raw_entries start end answer) [
          | none ↦ fetch_range tries start end
          | some entries ↦
              deliver start entries
                (fetch_range tries (add64 start (int64_of (length entries))) end)
        ]
      ]
      else record { batches = []; tries = suc tries; ending = complete }

  -- `runWorker`, on the ranges that it takes from the channel: it goes on to the next one when one
  -- is complete.
  unfoldable pub run_worker : ℕ → List FetchRange → Fetched E
  unfolding fetch_range
  run_worker tries [] = record { batches = []; tries = tries; ending = complete }
  run_worker tries (r ∷ ranges) =
      let f = fetch_range tries r.start r.end in
      let rest = run_worker f.tries ranges in
      elim f.ending [
        | complete ↦ record rest { batches = f.batches ++ rest.batches }
        | closed ↦ f
        | waiting ↦ f
      ]

  -- `Run` with one worker, which takes the ranges that the generator sends.
  unfoldable pub run : ℕ → Bool → List Turn → Option ℕ → Fetcher → Option (Fetched E)
  unfolding run_worker prepare generator
  run tries retries_errors turns answer f =
      let (sth, prepared) = prepare f answer in
      elim sth [
        | none ↦ none
        | some _ ↦ some (run_worker tries (generator retries_errors prepared.opts turns).ranges)
      ]
