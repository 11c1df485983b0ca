-- ===== src/Scanner/Tests.antt =====
-- scanner/fetcher.go: runs on a small log, and the theorems on them.
use certificate_transparency.Prelude.{
  Bool, ◌==◌, ◌≤◌, inl, inr, if◌then◌else◌, Bool-cases, ℕ, ◌*◌, ◌≡◌, refl, ap, sym, true, false,
  List, [], ◌∷◌, none, some, arith,
}
use certificate_transparency.Prelude.Int.{ℤ, pos, negsuc}
use certificate_transparency.Prelude.Int64.{add64, sub64}
use certificate_transparency.Scanner.Generator.{FetchRange, Turn, running, generator}
use certificate_transparency.Scanner.Worker.{Response, answered, Fetched, complete, run}
use certificate_transparency.Scanner.Ranges.{IsHanded}
use certificate_transparency.Scanner.Handed.{options, generator-IsHanded}
use certificate_transparency.Scanner.Delivered.{IsDelivered, IsHonest}
use certificate_transparency.Scanner.Ended.{successes, IsForthcoming}
use certificate_transparency.Scanner.Worked.{run-IsDelivered}

abbrev quiet : Turn
quiet = record { attempts = []; is_cancelled = false }

-- In continuous mode, a tree of 5 entries grows to 9: the first answer has too few for a batch.
abbrev growing : Turn
growing = record {
  attempts =
      record { answer = some 6; quick = true } ∷ record { answer = some 9; quick = true } ∷ [];
  is_cancelled = false;
}

abbrev range : ℕ → ℕ → FetchRange
range start end = record { start = pos start; end = pos end }

grown :
    (generator false (options true 3 0 5) (quiet ∷ quiet ∷ growing ∷ quiet ∷ [])).ranges
    ≡ range 0 2 ∷ range 3 4 ∷ range 5 7 ∷ range 8 8 ∷ []
unfolding generator add64 sub64
grown = refl

-- In continuous mode with a start index behind the tree, the first range is empty and the next one
-- starts at the size of the tree, before the start index.
goes_back :
    (generator false (options true 3 8 5) (quiet ∷ growing ∷ [])).ranges
    ≡ range 8 4 ∷ range 5 7 ∷ []
unfolding generator add64 sub64
goes_back = refl

-- A batch size of 0: the ranges are empty, and there is no end to them.
endless :
    generator false (options false 0 1 5) (quiet ∷ quiet ∷ [])
    ≡ record { ranges = range 1 0 ∷ range 1 0 ∷ []; next = pos 1; end = pos 5; standing = running }
unfolding generator add64 sub64
endless = refl

abbrev log : ℕ → ℕ
log i = i * 10

-- A log that gives one entry at a time.
abbrev server : ℕ → ℤ → ℤ → Response ℕ
server try (pos start) end = answered (some (log start ∷ []))
server try (negsuc start) end = answered none

entries_of : List ℕ → Response ℕ → List ℕ
entries_of d (answered (some entries)) = entries
entries_of d _ = d

server-IsHonest : IsHonest log server
unfolding entries_of
server-IsHonest try start last entries ordered h = (1, ap (entries_of entries) (sym h), omega arith)

-- The second of four tries fails.
abbrev fails : ℕ → Bool
fails try = try == 2

abbrev flaky : ℕ → ℤ → ℤ → Response ℕ
flaky try start end = if fails try then answered none else server try start end

none-ne_entries :
    (entries : List ℕ) → ◌≡◌ {A = Response ℕ} (answered none) (answered (some entries)) → ⊥
none-ne_entries entries h = cc

flaky-IsHonest : IsHonest log flaky
flaky-IsHonest try start last entries ordered h = elim (Bool-cases (fails try)) [
  | inl failed ↦ absurd (none-ne_entries entries (rw failed at h))
  | inr answers ↦ server-IsHonest try start last entries ordered (rw answers at h)
]

flaky-IsForthcoming : IsForthcoming log fails flaky
flaky-IsForthcoming try start last ordered =
    (λ failed. rw failed refl, λ answers. (log start, [], rw answers refl))

generator-IsHanded_example :
    IsHanded true 3 0 5 (generator false (options true 3 0 5) (quiet ∷ quiet ∷ growing ∷ []))
generator-IsHanded_example =
    generator-IsHanded false true 3 0 5 (quiet ∷ quiet ∷ growing ∷ []) (omega arith) (omega arith)
      (omega arith) (tt, (tt, (((λ size e. ground arith), ((λ size e. ground arith), tt)), tt)))

three_answers : 3 ≤ successes fails 4
unfolding successes
three_answers = omega arith

run-IsDelivered_example :
    (f : Fetched ℕ) × (run flaky 4 false
        (quiet ∷ quiet ∷ quiet ∷ [])
        (some 3)
        (record { sth = none; opts = options false 2 1 0 })
      ≡ some f)
    × (f.ending ≡ complete)
    × IsDelivered log 1 3 f.batches
run-IsDelivered_example =
    run-IsDelivered log flaky flaky-IsHonest fails flaky-IsForthcoming false 2 1 0 3 4
      (quiet ∷ quiet ∷ quiet ∷ []) (omega arith) (omega arith) (omega arith) (tt, (tt, (tt, tt)))
      (refl, (refl, (refl, tt))) (omega arith) three_answers
