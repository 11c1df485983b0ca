-- ===== src/Scanner/Ended.antt =====
-- scanner/fetcher.go: a worker comes to the end of a range.
use certificate_transparency.Prelude.{
  Bool, true, false, if◌then◌else◌, ℕ, zero, suc, ◌+◌, ◌^◌, ◌≡◌, ◌≤◌, ◌<◌, inl, inr, refl, ap, ◌∙◌,
  List, ◌∷◌, none, some, Bool-cases, length, ltb, ltb→lt, ltb→ge, lt→ltb, arith,
}
use certificate_transparency.Prelude.Int.{ℤ, pos}
use certificate_transparency.Prelude.Int64.{add64-pos, int64_of-small}
use certificate_transparency.Scanner.Worker.{Response, answered, complete, fetch_range}
use certificate_transparency.Scanner.Delivered.{
  IsHonest, get_raw_entries-asked, length-entries_from, fetch_range-open,
}

-- How many of so many tries do not fail.
unfoldable pub successes : (ℕ → Bool) → ℕ → ℕ
successes fails zero = 0
successes fails (suc try) = if fails try then successes fails try else suc (successes fails try)

module _ {E : Type 0} (log : ℕ → E) where
  -- A try fails, or an answer comes and has an entry at least, as `fails` says of the try.
  abbrev pub IsForthcoming : (ℕ → Bool) → (ℕ → ℤ → ℤ → Response E) → Type 0
  IsForthcoming fails server =
      (try start last : ℕ)
      → start ≤ last
      → (fails try ≡ true → server try (pos start) (pos last) ≡ answered none)
        × (fails try ≡ false
            → (e : E) × (entries : List E) × (server try (pos start) (pos last)
                ≡ answered (some (e ∷ entries))))

  module _ (server : ℕ → ℤ → ℤ → Response E) (honest : IsHonest log server) (last : ℕ)
      (small : last + 1 < 2 ^ 63) where
    -- With a forthcoming log, as many tries that do not fail as there are indices are enough.
    pub fetch_range-completes :
        (fails : ℕ → Bool)
        → IsForthcoming fails server
        → (tries start : ℕ) → start ≤ last + 1
        → last + 1 ≤ start + successes fails tries
        → ((fetch_range server tries (pos start) (pos last)).ending ≡ complete)
          × (start + successes fails tries
              ≤ last + 1 + successes fails (fetch_range server tries (pos start) (pos last)).tries)
    unfolding fetch_range successes
    fetch_range-completes fails forth zero start ordered enough =
        rw (lt→ltb last start (omega arith)) (refl, omega arith)
    fetch_range-completes fails forth (suc tries) start ordered enough =
        elim (Bool-cases (ltb last start)) [
          | inl past ↦ rw past (refl, omega (arith, ltb→lt last start past))
          | inr before ↦
              let within_range = ltb→ge last start before in
              elim (Bool-cases (fails tries)) [
                | inl failed ↦
                    let is_r = (forth tries start last within_range).0 failed in
                    let enough' : last + 1 ≤ start + successes fails tries =
                      (rw failed at enough) in
                    rw
                      (
                        fetch_range-open log server tries start last within_range,
                        is_r,
                        get_raw_entries-asked start last none within_range,
                        failed,
                      )
                      (fetch_range-completes fails forth tries start ordered enough')
                | inr answers ↦
                    let (e, entries, is_r) = (forth tries start last within_range).1 answers in
                    let (n, same, within) =
                      honest tries start last (e ∷ entries) within_range is_r in
                    let some_entries = ap length same ∙ length-entries_from log start n in
                    let enough' : last + 1 ≤ start + suc (successes fails tries) =
                      (rw answers at enough) in
                    let (done, left) =
                      fetch_range-completes fails forth tries (start + n) within
                        (omega (arith, some_entries, enough')) in
                    rw
                      (
                        fetch_range-open log server tries start last within_range,
                        is_r,
                        get_raw_entries-asked start last (some (e ∷ entries)) within_range,
                        some_entries,
                        int64_of-small n (omega arith),
                        add64-pos start n (omega arith),
                        answers,
                      )
                      (done, omega (arith, some_entries, left))
              ]
        ]
