-- ===== src/Scanner/Delivered.antt =====
-- scanner/fetcher.go: the entries that a worker delivers.
use certificate_transparency.Prelude.{
  ℕ, zero, suc, ◌+◌, ◌^◌, ◌≡◌, ◌≤◌, ◌<◌, inl, inr, refl, ap, subst, sym, List, [], ◌∷◌, ◌++◌,
  Option, none, some, Bool-cases, length, ltb, ltb→lt, ltb→ge, ge→ltb, arith,
}
use certificate_transparency.Prelude.Int.{ℤ, pos}
use certificate_transparency.Prelude.Int64.{add64, add64-pos, int64_of, int64_of-small}
use certificate_transparency.Scanner.Worker.{
  Response, context_done, answered, EntryBatch, Ending, complete, closed, waiting, Fetched, deliver,
  get_raw_entries, fetch_range,
}

pub get_raw_entries-asked {ℓ} :
    {A : Type ℓ} (start last : ℕ) (answer : Option A)
    → start ≤ last
    → get_raw_entries (pos start) (pos last) answer ≡ answer
unfolding get_raw_entries
get_raw_entries-asked start last answer ordered =
    rw (ge→ltb last start ordered, ge→ltb last 0 (omega arith)) refl

module _ {E : Type 0} (log : ℕ → E) where
  -- So many entries of the log from an index on.
  abbrev pub entries_from : ℕ → ℕ → List E
  entries_from start zero = []
  entries_from start (suc n) = log start ∷ entries_from (start + 1) n

  -- The batches hold the entries of the log from `start` to `end`, which is left out, in order and
  -- each once, and each batch says where it starts.
  abbrev pub IsDelivered : ℕ → ℕ → List (EntryBatch E) → Type 0
  IsDelivered start end [] = start ≡ end
  IsDelivered start end (b ∷ bs) =
      (n : ℕ) × (b.start ≡ pos start)
      × (b.entries ≡ entries_from start n)
      × IsDelivered (start + n) end bs

  -- An answer has entries of the log from the first index that is asked for, and not more of them
  -- than are asked for. It may have fewer, and none.
  abbrev pub IsHonest : (ℕ → ℤ → ℤ → Response E) → Type 0
  IsHonest server =
      (try start last : ℕ) (entries : List E)
      → start ≤ last
      → server try (pos start) (pos last) ≡ answered (some entries)
      → (n : ℕ) × (entries ≡ entries_from start n) × (start + n ≤ last + 1)

  pub length-entries_from : (start n : ℕ) → length (entries_from start n) ≡ n
  length-entries_from start zero = refl
  length-entries_from start (suc n) = ap suc (length-entries_from (start + 1) n)

  pub IsDelivered-append :
      (start middle end : ℕ) (bs cs : List (EntryBatch E))
      → IsDelivered start middle bs
      → IsDelivered middle end cs
      → IsDelivered start end (bs ++ cs)
  IsDelivered-append start middle end [] cs same h =
      subst (λ (k : ℕ). IsDelivered k end cs) (sym same) h
  IsDelivered-append start middle end (b ∷ bs) cs (n, starts, holds, more) h =
      (n, starts, holds, IsDelivered-append (start + n) middle end bs cs more h)

  -- What a worker delivered of the indices from `start` to `last`.
  pub record IsFetched (start last : ℕ) (f : Fetched E) : Type 0 where
    pub reached : ℕ
    pub within : reached ≤ last + 1
    pub delivered : IsDelivered start reached f.batches
    pub completes : f.ending ≡ complete → reached ≡ last + 1

  module _ (server : ℕ → ℤ → ℤ → Response E) where
    deliver-IsFetched :
        (start last n : ℕ) (entries : List E) (f : Fetched E)
        → entries ≡ entries_from start n
        → IsFetched (start + n) last f
        → IsFetched start last (deliver server (pos start) entries f)
    deliver-IsFetched start last n entries f same h = record {
      reached = h.reached;
      within = h.within;
      delivered = (n, refl, same, h.delivered);
      completes = h.completes;
    }

    pub fetch_range-open :
        (tries start last : ℕ)
        → start ≤ last
        → fetch_range server (suc tries) (pos start) (pos last)
          ≡ (elim (server tries (pos start) (pos last)) [
            | context_done ↦ record { batches = []; tries = tries; ending = closed }
            | answered answer ↦ elim (get_raw_entries (pos start) (pos last) answer) [
              | none ↦ fetch_range server tries (pos start) (pos last)
              | some entries ↦ deliver server (pos start) entries (
                  fetch_range server tries
                    (add64 (pos start) (int64_of (length entries)))
                    (pos last))
            ]
          ])
    unfolding fetch_range
    fetch_range-open tries start last ordered = rw (ge→ltb last start ordered) refl

    -- A worker that goes no further.
    rest-IsFetched :
        (start last tries : ℕ) (ending : Ending)
        → start ≤ last + 1
        → (ending ≡ complete → start ≡ last + 1)
        → IsFetched start last (record { batches = []; tries = tries; ending = ending })
    rest-IsFetched start last tries ending ordered ends = record {
      reached = start;
      within = ordered;
      delivered = refl;
      completes = ends;
    }

    module _ (honest : IsHonest server) (last : ℕ) (small : last + 1 < 2 ^ 63) where
      abbrev Fetches : ℕ → Type 0
      Fetches tries =
          (start : ℕ)
          → start ≤ last + 1
          → IsFetched start last (fetch_range server tries (pos start) (pos last))

      -- What follows on a response.
      response-IsFetched :
          (tries start : ℕ) (r : Response E)
          → start ≤ last
          → server tries (pos start) (pos last) ≡ r
          → Fetches tries
          → IsFetched start last (elim r [
            | context_done ↦ record { batches = []; tries = tries; ending = closed }
            | answered answer ↦ elim (get_raw_entries (pos start) (pos last) answer) [
              | none ↦ fetch_range server tries (pos start) (pos last)
              | some entries ↦ deliver server (pos start) entries (
                  fetch_range server tries
                    (add64 (pos start) (int64_of (length entries)))
                    (pos last))
            ]
          ])
      response-IsFetched tries start context_done ordered is_r fetches =
          rest-IsFetched start last tries closed (omega arith) (λ e. cc)
      response-IsFetched tries start (answered none) ordered is_r fetches =
          rw (get_raw_entries-asked start last none ordered) (fetches start (omega arith))
      response-IsFetched tries start (answered (some entries)) ordered is_r fetches =
          let (n, same, within) = honest tries start last entries ordered is_r in
          rw
            (
              get_raw_entries-asked start last (some entries) ordered,
              same,
              length-entries_from start n,
              int64_of-small n (omega arith),
              add64-pos start n (omega arith),
            )
            (deliver-IsFetched start last n (entries_from start n) _ refl
              (fetches (start + n) within))

      pub fetch_range-IsFetched : (tries : ℕ) → Fetches tries
      unfolding fetch_range
      fetch_range-IsFetched zero start ordered = elim (Bool-cases (ltb last start)) [
        | inl past ↦ rw past (
            rest-IsFetched start last 0 complete ordered
              (λ e. omega (arith, ltb→lt last start past)))
        | inr before ↦ rw before (rest-IsFetched start last 0 waiting ordered (λ e. cc))
      ]
      fetch_range-IsFetched (suc tries) start ordered = elim (Bool-cases (ltb last start)) [
        | inl past ↦ rw past (
            rest-IsFetched start last (suc tries) complete ordered
              (λ e. omega (arith, ltb→lt last start past)))
        | inr before ↦ rw (fetch_range-open tries start last (ltb→ge last start before)) (
            response-IsFetched tries start (server tries (pos start) (pos last))
              (ltb→ge last start before) refl (fetch_range-IsFetched tries))
      ]
