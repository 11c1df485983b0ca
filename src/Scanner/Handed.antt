-- ===== src/Scanner/Handed.antt =====
-- scanner/fetcher.go: the ranges that the generator hands out.
use certificate_transparency.Prelude.{
  ℕ, ◌-◌, ◌^◌, ◌≡◌, ◌≤◌, ◌<◌, inl, inr, refl, ap, subst, ◌∙◌, Bool, true, false, not, ◌||◌, List,
  [], ◌∷◌, some, Option-cases, Bool-cases, true-ne_false, All, length, ltb, ltb→lt, ltb→ge, lt→ltb,
  ge→ltb, if◌then◌else◌, arith,
}
use certificate_transparency.Prelude.Int.{pos}
use certificate_transparency.Scanner.Generator.{
  FetcherOptions, Turn, finished, stopped, hand_out, halt, batch_end, update_sth, gen_ranges,
  generator,
}
use certificate_transparency.Scanner.Consecutive.{
  IsConsecutive, IsSmall, update_sth-grows, batch_end-IsNext,
}
use certificate_transparency.Scanner.Ranges.{
  IsHanded, IsBounded, halt-IsHanded, hand_out-IsHanded, grown-IsHanded, not_equal, equal,
}

module _ (retries continuous : Bool) (batch : ℕ) (positive : 0 < batch) where
  abbrev Hands : List Turn → Type 0
  Hands turns =
      (start end : ℕ)
      → start ≤ end
      → end < 2 ^ 63
      → IsHanded continuous batch start end
          (gen_ranges retries continuous (pos batch) turns (pos start) (pos end))

  -- A turn that has a range to hand out.
  turn-IsHanded :
      (cancelled : Bool) (turns : List Turn) (start end : ℕ)
      → start < end
      → end < 2 ^ 63
      → Hands turns
      → IsHanded continuous batch start end (
          if cancelled
          then halt (pos start) (pos end) stopped
          else hand_out (pos start) (batch_end (pos batch) (pos start) (pos end)) (
              gen_ranges retries continuous
                (pos batch)
                turns
                (batch_end (pos batch) (pos start) (pos end))
                (pos end)))
  turn-IsHanded true turns start end ordered small hands =
      halt-IsHanded continuous batch start end stopped (omega arith) (λ e. cc)
  turn-IsHanded false turns start end ordered small hands =
      let (next, is_next, before, progress, within, sized) =
        batch_end-IsNext batch start end positive ordered small in
      rw is_next (
        hand_out-IsHanded continuous batch start next end _ progress sized before
          (hands next end within small))

  gen_ranges-hands :
      (t : Turn) (turns : List Turn) (start end : ℕ)
      → start < end
      → gen_ranges retries continuous (pos batch) (t ∷ turns) (pos start) (pos end) ≡ (
          if t.is_cancelled
          then halt (pos start) (pos end) stopped
          else hand_out (pos start) (batch_end (pos batch) (pos start) (pos end)) (
              gen_ranges retries continuous
                (pos batch)
                turns
                (batch_end (pos batch) (pos start) (pos end))
                (pos end)))
  unfolding gen_ranges
  gen_ranges-hands t turns start end ordered =
      rw (lt→ltb start end ordered, not_equal start end ordered) refl

  gen_ranges-waits :
      (t : Turn) (turns : List Turn) (start end : ℕ)
      → continuous ≡ true
      → update_sth retries (pos batch) (pos start) t.attempts ≡ some (pos end)
      → gen_ranges retries continuous (pos batch) (t ∷ turns) (pos start) (pos start) ≡ (
          if t.is_cancelled
          then halt (pos start) (pos end) stopped
          else hand_out (pos start) (batch_end (pos batch) (pos start) (pos end)) (
              gen_ranges retries continuous
                (pos batch)
                turns
                (batch_end (pos batch) (pos start) (pos end))
                (pos end)))
  unfolding gen_ranges
  gen_ranges-waits t turns start end on got = rw (is_open, equal start, got) refl
    where
      is_open : not (ltb start start || continuous) ≡ false
      is_open = rw (on, ge→ltb start start (omega arith)) refl

  -- A turn that first waits for a bigger tree.
  wait-IsHanded :
      (t : Turn) (turns : List Turn) (start : ℕ)
      → continuous ≡ true
      → start < 2 ^ 63
      → All IsSmall t.attempts
      → Hands turns
      → IsHanded continuous batch start start
          (gen_ranges retries continuous (pos batch) (t ∷ turns) (pos start) (pos start))
  unfolding gen_ranges
  wait-IsHanded t turns start on small attempts hands =
      elim (Option-cases (update_sth retries (pos batch) (pos start) t.attempts)) [
        | inl failed ↦
            rw (on, ge→ltb start start (omega arith), equal start, failed)
              (halt-IsHanded true batch start start stopped (omega arith) (λ e. cc))
        | inr (end, got) ↦
            let (n, is_n, grown, bound) =
              update_sth-grows retries (pos batch) start t.attempts end attempts small got in
            rw (gen_ranges-waits t turns start n on (got ∙ ap some is_n)) (
              grown-IsHanded continuous batch start start n _ (omega arith)
                (λ off. absurd (true-ne_false on off))
                (turn-IsHanded t.is_cancelled turns start n grown bound hands))
      ]

  gen_ranges-IsHanded : (turns : List Turn) → IsBounded turns → Hands turns
  unfolding gen_ranges
  gen_ranges-IsHanded [] bounded start end ordered small =
      halt-IsHanded continuous batch start end _ ordered (λ e. ground arith)
  gen_ranges-IsHanded (t ∷ turns) bounded start end ordered small =
      elim (Bool-cases (ltb start end)) [
        | inl less ↦
            rw (gen_ranges-hands t turns start end (omega (arith, ltb→lt start end less))) (
              turn-IsHanded t.is_cancelled turns start end (omega (arith, ltb→lt start end less))
                small (gen_ranges-IsHanded turns bounded.1))
        | inr not_less ↦ elim (Bool-cases continuous) [
          | inl on ↦
              subst
                (λ (k : ℕ).
                  IsHanded continuous batch start k
                    (gen_ranges retries continuous (pos batch) (t ∷ turns) (pos start) (pos k)))
                (omega (arith, ltb→ge start end not_less))
                (wait-IsHanded t turns start on (omega arith) bounded.0
                  (gen_ranges-IsHanded turns bounded.1))
          | inr off ↦
              rw (off, not_less)
                (halt-IsHanded false batch start end finished ordered
                  (λ e. (refl, omega (arith, ltb→ge start end not_less))))
        ]
      ]

  -- Without continuous mode, as many turns as there are indices are enough, if none is cancelled.
  gen_ranges-finishes :
      (turns : List Turn) (start end : ℕ)
      → continuous ≡ false
      → All (λ t. t.is_cancelled ≡ false) turns
      → end - start ≤ length turns
      → start ≤ end
      → end < 2 ^ 63
      → (gen_ranges retries continuous (pos batch) turns (pos start) (pos end)).standing ≡ finished
  unfolding gen_ranges
  gen_ranges-finishes [] start end off kept enough ordered small =
      rw (off, ge→ltb start end (omega arith)) refl
  gen_ranges-finishes (t ∷ turns) start end off kept enough ordered small =
      elim (Bool-cases (ltb start end)) [
        | inl less ↦
            let (next, is_next, before, progress, within, sized) =
              batch_end-IsNext batch start end positive (omega (arith, ltb→lt start end less))
                small in
            rw
              (
                gen_ranges-hands t turns start end (omega (arith, ltb→lt start end less)),
                kept.0,
                is_next,
              )
              (gen_ranges-finishes turns next end off kept.1 (omega arith) within small)
        | inr not_less ↦ rw (off, not_less) refl
      ]

abbrev pub options : Bool → ℕ → ℕ → ℕ → FetcherOptions
options continuous batch start end = record {
  batch_size = pos batch;
  start_index = pos start;
  end_index = pos end;
  continuous = continuous;
}

-- In any mode, whatever STHs are found and whenever the context is cancelled, the ranges that the
-- generator hands out follow on one another from the start index on, none is empty or bigger than a
-- batch, and they stay within the size of the biggest tree that it knows, which does not shrink; it
-- ends by itself only out of continuous mode, and then it has handed out all of them. The batch size
-- is positive, the start is within the tree, and sizes of trees are of an int64.
pub generator-IsHanded :
    (retries continuous : Bool) (batch start end : ℕ) (turns : List Turn)
    → 0 < batch
    → start ≤ end
    → end < 2 ^ 63
    → IsBounded turns
    → IsHanded continuous batch start end
        (generator retries (options continuous batch start end) turns)
unfolding generator
generator-IsHanded retries continuous batch start end turns positive ordered small bounded =
    gen_ranges-IsHanded retries continuous batch positive turns bounded start end ordered small

-- Out of continuous mode, the ranges that the generator hands out cut the indices from the start to
-- the end into consecutive, non-empty ranges of at most a batch, and as many turns as there are
-- indices are enough for it to end. The batch size is positive, the start is not after the end, and
-- the context is not cancelled.
pub generator-IsConsecutive :
    (retries : Bool) (batch start end : ℕ) (turns : List Turn)
    → 0 < batch
    → start ≤ end
    → end < 2 ^ 63
    → IsBounded turns
    → All (λ t. t.is_cancelled ≡ false) turns
    → end - start ≤ length turns
    → ((generator retries (options false batch start end) turns).standing ≡ finished)
      × IsConsecutive batch start end
          (generator retries (options false batch start end) turns).ranges
unfolding generator
generator-IsConsecutive retries batch start end turns positive ordered small bounded kept enough =
    let h =
      gen_ranges-IsHanded retries false batch positive turns bounded start end ordered small in
    let f =
      gen_ranges-finishes retries false batch positive turns start end refl kept enough ordered
        small in
    (
      f,
      subst
          (λ (k : ℕ).
            IsConsecutive batch start k
              (generator retries (options false batch start end) turns).ranges)
          ((h.finishes f).1 ∙ h.fixed refl) h.consecutive,
    )
