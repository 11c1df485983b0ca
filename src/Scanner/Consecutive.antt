-- ===== src/Scanner/Consecutive.antt =====
-- scanner/fetcher.go: one turn of the range generator.
use certificate_transparency.Prelude.{
  ℕ, ◌+◌, ◌-◌, ◌%◌, ◌^◌, min, ◌≡◌, ◌≤◌, ◌<◌, inl, inr, ap, sym, ◌∙◌, Bool, List, [], ◌∷◌, some,
  Option-cases, Bool-cases, some_inj, All, arith,
}
use certificate_transparency.Prelude.Int.{ℤ, pos, ltz}
use certificate_transparency.Prelude.Int64.{sub64, uint64_of, add64-pos, sub64-pos, int64_of-small}
use certificate_transparency.Scanner.Generator.{
  FetchRange, Attempt, batch_end, retry_sth, update_sth,
}

-- The ranges follow on one another from `start` to `end`, which is left out, none is empty, and none
-- has more than `batch` indices.
abbrev pub IsConsecutive : ℕ → ℕ → ℕ → List FetchRange → Type 0
IsConsecutive batch start end [] = start ≡ end
IsConsecutive batch start end (r ∷ rs) =
    (last : ℕ) × (r.start ≡ pos start)
    × (r.end ≡ pos last)
    × (start ≤ last)
    × (last < start + batch)
    × IsConsecutive batch (last + 1) end rs

batch_end_lem :
    (batch start end : ℕ)
    → start ≤ end
    → end < 2 ^ 63
    → batch_end (pos batch) (pos start) (pos end) ≡ pos (start + min (end - start) batch)
unfolding batch_end
batch_end_lem batch start end ordered small =
    rw (sub64-pos end start ordered small)
      (elim (Bool-cases (ltz (pos (end - start)) (pos batch))) [
        | inl less ↦ rw less (add64-pos start (end - start) (omega arith) ∙ ap pos (ground arith))
        | inr more ↦ rw more (add64-pos start batch (ground arith) ∙ ap pos (ground arith))
      ])

-- The sizes of trees that are answered are of an int64.
abbrev pub IsSmall : Attempt → Type 0
IsSmall a = (size : ℕ) → a.answer ≡ some size → size < 2 ^ 63

retry_sth-grows :
    (retries : Bool) (last target : ℕ) (attempts : List Attempt) (size : ℕ)
    → All IsSmall attempts
    → retry_sth retries last target attempts ≡ some size
    → (last < size) × (size < 2 ^ 63)
unfolding retry_sth
retry_sth-grows retries last target [] size small h = cc
retry_sth-grows retries last target (a ∷ attempts) size small h =
    ground (arith, retry_sth-grows retries last target attempts size small.1, small.0 size)

-- What `updateSTH` returns: a bigger tree.
pub update_sth-grows :
    (retries : Bool) (batch : ℤ) (end : ℕ) (attempts : List Attempt) (end' : ℤ)
    → All IsSmall attempts
    → end < 2 ^ 63
    → update_sth retries batch (pos end) attempts ≡ some end'
    → (n : ℕ) × (end' ≡ pos n) × (end < n) × (n < 2 ^ 63)
unfolding update_sth
update_sth-grows retries batch end attempts end' small bound h =
    elim (Option-cases
      (retry_sth retries (end % 2 ^ 64) ((end % 2 ^ 64 + uint64_of batch) % 2 ^ 64) attempts)) [
        | inl failed ↦ cc
        | inr (size, got) ↦
            let grown =
              retry_sth-grows retries (end % 2 ^ 64) ((end % 2 ^ 64 + uint64_of batch) % 2 ^ 64)
                attempts size small got in
            (
              size,
              sym (some_inj (rw (got, update_sth) at h)) ∙ int64_of-small size grown.1,
              omega (arith, grown.0),
              grown.1,
            )
      ]

-- How the generator stands after a range: what is left is as it was, behind the range.
pub batch_end-IsNext :
    (batch start end : ℕ)
    → 0 < batch
    → start < end
    → end < 2 ^ 63
    → (next : ℕ) × (batch_end (pos batch) (pos start) (pos end) ≡ pos next)
      × (sub64 (pos next) (pos 1) ≡ pos (next - 1))
      × (start < next)
      × (next ≤ end)
      × (next ≤ start + batch)
batch_end-IsNext batch start end positive ordered small = (
  start + min (end - start) batch,
  batch_end_lem batch start end (omega arith) small,
  sub64-pos (start + min (end - start) batch) 1 (omega arith) (omega arith),
  omega arith,
  omega arith,
  omega arith,
)
