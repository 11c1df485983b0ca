-- ===== src/Scanner/Worked.antt =====
-- scanner/fetcher.go: a worker that takes all ranges, and a run with one worker.
use certificate_transparency.Prelude.{
  ℕ, ◌+◌, ◌^◌, ◌≡◌, ◌≤◌, ◌<◌, inl, inr, refl, ap, subst, Bool, false, List, [], ◌∷◌, ◌++◌, Option,
  none, some, Bool-cases, length, ltb, if◌then◌else◌, arith, ◌||◌, ◌==◌, All,
}
use certificate_transparency.Prelude.Int.{ℤ, pos}
use certificate_transparency.Prelude.Int64.{int64_of-small}
use certificate_transparency.Scanner.Generator.{FetchRange, Fetcher, Turn, prepare, generator}
use certificate_transparency.Scanner.Worker.{
  Response, Ending, complete, closed, waiting, Fetched, fetch_range, run_worker, run,
}
use certificate_transparency.Scanner.Consecutive.{IsConsecutive}
use certificate_transparency.Scanner.Ranges.{IsBounded}
use certificate_transparency.Scanner.Handed.{options, generator-IsConsecutive}
use certificate_transparency.Scanner.Delivered.{
  IsDelivered, IsHonest, IsFetched, IsDelivered-append, fetch_range-IsFetched,
}
use certificate_transparency.Scanner.Ended.{IsForthcoming, successes, fetch_range-completes}

module _ {E : Type 0} (log : ℕ → E) (server : ℕ → ℤ → ℤ → Response E)
    (honest : IsHonest log server) where
  -- What a worker delivered of consecutive ranges up to an index, which is left out.
  pub record IsWorked (start end : ℕ) (f : Fetched E) : Type 0 where
    pub reached : ℕ
    pub within : reached ≤ end
    pub delivered : IsDelivered log start reached f.batches
    pub completes : f.ending ≡ complete → reached ≡ end

  IsConsecutive-ordered :
      (batch start end : ℕ) (ranges : List FetchRange)
      → IsConsecutive batch start end ranges
      → start ≤ end
  IsConsecutive-ordered batch start end [] same = omega (arith, same)
  IsConsecutive-ordered batch start end (r ∷ ranges) (last, s, e, lo, hi, more) =
      omega (arith, lo, IsConsecutive-ordered batch (last + 1) end ranges more)

  joined-IsWorked :
      (start last end : ℕ) (f rest : Fetched E) (ending : Ending)
      → f.ending ≡ ending
      → last + 1 ≤ end
      → IsFetched log start last f
      → IsWorked (last + 1) end rest
      → IsWorked start end (elim ending [
        | complete ↦ record rest { batches = f.batches ++ rest.batches }
        | closed ↦ f
        | waiting ↦ f
      ])
  joined-IsWorked start last end f rest complete is_ending ordered h k = record {
    reached = k.reached;
    within = k.within;
    delivered =
        IsDelivered-append log start (last + 1) k.reached f.batches rest.batches
          (subst (λ (n : ℕ). IsDelivered log start n f.batches) (h.completes is_ending) h.delivered)
          k.delivered;
    completes = k.completes;
  }
  joined-IsWorked start last end f rest closed is_ending ordered h k = record {
    reached = h.reached;
    within = omega (arith, h.within);
    delivered = h.delivered;
    completes = λ c. cc;
  }
  joined-IsWorked start last end f rest waiting is_ending ordered h k = record {
    reached = h.reached;
    within = omega (arith, h.within);
    delivered = h.delivered;
    completes = λ c. cc;
  }

  pub run_worker-IsWorked :
      (batch : ℕ) (ranges : List FetchRange) (tries start end : ℕ)
      → IsConsecutive batch start end ranges
      → end < 2 ^ 63
      → IsWorked start end (run_worker server tries ranges)
  unfolding run_worker
  run_worker-IsWorked batch [] tries start end same small = record {
    reached = start;
    within = omega (arith, same);
    delivered = refl;
    completes = λ e. same;
  }
  run_worker-IsWorked batch (r ∷ ranges) tries start end (last, s, e, lo, hi, more) small =
      let ordered = IsConsecutive-ordered batch (last + 1) end ranges more in
      let h =
        fetch_range-IsFetched log server honest last (omega (arith, ordered, small)) tries start
          (omega (arith, lo)) in
      let f = fetch_range server tries (pos start) (pos last) in
      rw (s, e)
        (joined-IsWorked start last end f (run_worker server f.tries ranges) f.ending refl ordered h
          (run_worker-IsWorked batch ranges f.tries (last + 1) end more small))

  pub run_worker-completes :
      (fails : ℕ → Bool)
      → IsForthcoming log fails server
      → (batch : ℕ) (ranges : List FetchRange) (tries start end : ℕ)
      → IsConsecutive batch start end ranges
      → end < 2 ^ 63
      → end ≤ start + successes fails tries
      → (run_worker server tries ranges).ending ≡ complete
  unfolding run_worker
  run_worker-completes fails forth batch [] tries start end same small enough = refl
  run_worker-completes fails forth batch (r ∷ ranges) tries start end (last, s, e, lo, hi, more)
        small enough =
      let ordered = IsConsecutive-ordered batch (last + 1) end ranges more in
      let (done, left) =
        fetch_range-completes log server honest last (omega (arith, ordered, small)) fails forth
          tries start (omega (arith, lo)) (omega (arith, ordered)) in
      let is_done : (fetch_range server tries r.start r.end).ending ≡ complete = rw (s, e) done in
      rw (is_done, run_worker)
        (rw (s, e)
          (run_worker-completes fails forth batch ranges
            (fetch_range server tries (pos start) (pos last)).tries (last + 1) end more small
            (omega (arith, left))))

-- The end of what is fetched: the end index, or the size of the tree where that is 0 or too big.
abbrev pub stop_of : ℕ → ℕ → ℕ
stop_of end size = if (end == 0) || ltb size end then size else end

stop_of_le : (end size : ℕ) → stop_of end size ≤ size
stop_of_le end size = ground arith

prepare_lem :
    (continuous : Bool) (batch start end size : ℕ)
    → size < 2 ^ 63
    → prepare (record { sth = none; opts = options continuous batch start end }) (some size) ≡ (
      some size,
      record { sth = some size; opts = options continuous batch start (stop_of end size) },
    )
unfolding prepare
prepare_lem continuous batch start end size small =
    rw (int64_of-small size small) (elim (Bool-cases ((end == 0) || ltb size end)) [
      | inl reset ↦ rw reset refl
      | inr kept ↦ rw kept refl
    ])

-- A run with one worker, out of continuous mode and not cancelled, fetches what it is to: with a log
-- whose every answer has some of the entries asked for, or is an error, after which the worker tries
-- again, and with as many turns, and as many tries that are no error, as there are indices, it ends,
-- and the batches that it delivers hold the entries of the log from the start index up to the end
-- index, or up to the size of the tree where that is 0 or too big, in order and each once. The batch
-- size is positive and the start is within the tree.
pub run-IsDelivered :
    {E : Type 0} (log : ℕ → E) (server : ℕ → ℤ → ℤ → Response E)
    → IsHonest log server
    → (fails : ℕ → Bool) → IsForthcoming log fails server
    → (retries : Bool) (batch start end size tries : ℕ) (turns : List Turn) → 0 < batch
    → start ≤ stop_of end size
    → size < 2 ^ 63
    → IsBounded turns
    → All (λ t. t.is_cancelled ≡ false) turns
    → stop_of end size ≤ length turns
    → stop_of end size ≤ successes fails tries
    → (f : Fetched E) × (run server tries retries turns
          (some size)
          (record { sth = none; opts = options false batch start end })
        ≡ some f)
      × (f.ending ≡ complete)
      × IsDelivered log start (stop_of end size) f.batches
unfolding run
run-IsDelivered log server honest fails forth retries batch start end size tries turns positive
      ordered small bounded kept turns_enough tries_enough =
    let stop = stop_of end size in
    let stop_small : stop < 2 ^ 63 = omega (arith, stop_of_le end size, small) in
    let (done, parts) =
      generator-IsConsecutive retries batch start stop turns positive ordered stop_small bounded
        kept (omega arith) in
    let ranges = (generator retries (options false batch start stop) turns).ranges in
    let h = run_worker-IsWorked log server honest batch ranges tries start stop parts stop_small in
    let ends =
      run_worker-completes log server honest fails forth batch ranges tries start stop parts
        stop_small (omega arith) in
    (
      run_worker server tries ranges,
      ap
          (λ (p : Option ℕ × Fetcher). elim p.0 [
            | none ↦ none
            | some _ ↦ some (run_worker server tries (generator retries p.1.opts turns).ranges)
          ])
          (prepare_lem false batch start end size small),
      ends,
      subst (λ (n : ℕ). IsDelivered log start n (run_worker server tries ranges).batches)
          (h.completes ends) h.delivered,
    )
