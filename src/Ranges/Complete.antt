-- ===== src/Ranges/Complete.antt =====
-- ingestor/ranges/tracker.go: which trackers are complete, and which sub-ranges overlap.
use mathlib.Core.Path.{ap₂}
use certificate_transparency.Prelude.{
  ℕ, ◌+◌, ◌-◌, ◌^◌, ◌≡◌, ◌≤◌, ◌<◌, inl, inr, refl, sym, ap, subst, ◌∙◌, true, false, List, [], ◌∷◌,
  ltb, leb, ◌==◌, if◌then◌else◌, lt→ltb, ge→ltb, le→leb, arith,
}
use certificate_transparency.Prelude.Outcome.{ok}
use certificate_transparency.Prelude.Int.{ℤ, pos, negsuc, ltz}
use certificate_transparency.Ranges.Tracker.{
  SubRange, Tracker, minus_one, max_int64, succ64, update, extent, contiguous, sort, any_collides,
  add_sub_range, is_complete,
}
use certificate_transparency.Ranges.Coverage.{Reached}
use certificate_transparency.Ranges.Invariant.{Reached-IsTracker}

-- Sub-ranges that follow on one another, from one index to another.
abbrev pub IsChain : ℕ → ℕ → List SubRange → Type 0
IsChain a b [] = ⊥
IsChain a b (r ∷ []) = (r.first ≡ a) × (r.first ≤ r.last) × (r.last ≡ b)
IsChain a b (r ∷ s ∷ rs) = (r.first ≡ a) × (r.first ≤ r.last) × IsChain (r.last + 1) b (s ∷ rs)

chain_le : (a b : ℕ) (rs : List SubRange) → IsChain a b rs → a ≤ b
chain_le a b [] c = absurd c
chain_le a b (r ∷ []) c = omega arith
chain_le a b (r ∷ s ∷ rs) c = omega (arith, chain_le (r.last + 1) b (s ∷ rs) c.2)

ltz_le : (z : ℤ) (a b : ℕ) → ltz z (pos a) ≡ true → a ≤ b → ltz z (pos b) ≡ true
ltz_le (pos n) a b h le = ground arith
ltz_le (negsuc n) a b h le = refl

extent_step :
    (l a : ℕ) (hi : ℤ) (r : SubRange) (rs : List SubRange)
    → l ≤ r.first
    → r.first ≤ r.last
    → ltz hi (pos r.first) ≡ true
    → extent (pos l) hi (r ∷ rs) ≡ extent (pos l) (pos r.last) rs
unfolding extent
extent_step l a hi r rs from long below =
    rw (ge→ltb r.first l from, ltz_le hi r.first r.last below long) refl

extent_chain :
    (l a b : ℕ) (hi : ℤ) (rs : List SubRange)
    → IsChain a b rs
    → l ≤ a
    → ltz hi (pos a) ≡ true
    → extent (pos l) hi rs ≡ (pos l, pos b)
unfolding extent
extent_chain l a b hi [] c le below = absurd c
extent_chain l a b hi (r ∷ []) (f, long, e) le below =
    extent_step l a hi r [] (omega arith) long (rw (sym f) at below) ∙ ap (λ n. (pos l, pos n)) e
extent_chain l a b hi (r ∷ s ∷ rs) (f, long, c) le below =
    extent_step l a hi r (s ∷ rs) (omega arith) long (rw (sym f) at below)
    ∙ extent_chain l (r.last + 1) b (pos r.last) (s ∷ rs) c (omega arith)
        (lt→ltb r.last (r.last + 1) (omega arith))

succ64_below : (n : ℕ) → n + 1 < 2 ^ 63 → succ64 n ≡ pos (n + 1)
succ64_below n h = ground arith

contiguous_step :
    (a : ℕ) (mid : ℤ) (r : SubRange) (rs : List SubRange)
    → r.first ≡ a
    → contiguous (pos a) mid (r ∷ rs) ≡ contiguous (succ64 r.last) (pos r.last) rs
unfolding contiguous
contiguous_step a mid r rs f = let test : (r.first == a) ≡ true = ground arith in rw test refl

contiguous_chain :
    (a b : ℕ) (mid : ℤ) (rs : List SubRange)
    → IsChain a b rs
    → b < 2 ^ 63
    → contiguous (pos a) mid rs ≡ pos b
unfolding contiguous
contiguous_chain a b mid [] c small = absurd c
contiguous_chain a b mid (r ∷ []) (f, long, e) small = contiguous_step a mid r [] f ∙ ap pos e
contiguous_chain a b mid (r ∷ s ∷ rs) (f, long, c) small =
    contiguous_step a mid r (s ∷ rs) f
    ∙ (ap (λ z. contiguous z (pos r.last) (s ∷ rs))
          (succ64_below r.last (omega (arith, chain_le (r.last + 1) b (s ∷ rs) c)))
        ∙ contiguous_chain (r.last + 1) b (pos r.last) (s ∷ rs) c small)

first_step :
    (r : SubRange) (rs : List SubRange)
    → r.first < 2 ^ 63
    → extent max_int64 minus_one (r ∷ rs) ≡ extent (pos r.first) (pos r.last) rs
unfolding extent
first_step r rs small = rw (lowest r.first small) refl
  where
    lowest : (n : ℕ) → n < 2 ^ 63 → (if ltb n (2 ^ 63 - 1) then pos n else max_int64) ≡ pos n
    lowest n h = ground arith

chain_extent :
    (a b : ℕ) (rs : List SubRange)
    → IsChain a b rs
    → b < 2 ^ 63
    → extent max_int64 minus_one rs ≡ (pos a, pos b)
unfolding extent
chain_extent a b [] c small = absurd c
chain_extent a b (r ∷ []) (f, long, e) small =
    first_step r [] (omega arith) ∙ ap₂ (λ m n. (pos m, pos n)) f e
chain_extent a b (r ∷ s ∷ rs) (f, long, c) small =
    first_step r (s ∷ rs) (omega (arith, chain_le (r.last + 1) b (s ∷ rs) c))
    ∙ (extent_chain r.first (r.last + 1) b (pos r.last) (s ∷ rs) c (omega arith)
          (lt→ltb r.last (r.last + 1) (omega arith))
        ∙ ap (λ n. (pos n, pos b)) f)

same_test : (n : ℕ) → (n == n) ≡ true
same_test n = ground arith

update_chain :
    (a b : ℕ) (rs : List SubRange)
    → IsChain a b rs
    → b < 2 ^ 63
    → update a rs ≡ record { lo = pos a; mid = pos b; hi = pos b }
unfolding update
update_chain a b rs c small =
    rw (chain_extent a b rs c small, same_test a, contiguous_chain a b minus_one rs c small) refl

-- When the sub-ranges that were added follow on one another from the start of the range to its end,
-- the tracker is complete.
pub chain-is_complete :
    (rt : Tracker)
    → Reached rt
    → IsChain rt.start rt.end rt.sub_ranges
    → rt.end < 2 ^ 63
    → is_complete rt ≡ true
unfolding is_complete
chain-is_complete rt reached chain small = elim ((Reached-IsTracker rt reached).marks) [
  | inl fresh ↦ absurd (subst (IsChain rt.start rt.end) fresh.0 chain)
  | inr marks ↦
      rw
        (
          marks ∙ update_chain rt.start rt.end rt.sub_ranges chain small,
          same_test rt.end,
          ge→ltb rt.end 0 (omega arith),
        )
        refl
]

-- Two sub-ranges can overlap: one that holds an added one strictly inside passes the test, which
-- looks only at its two ends.
pub containing_accepted :
    (rt : Tracker) (a b c d : ℕ)
    → rt.sub_ranges ≡ record { first = a; last = b } ∷ []
    → c < a
    → a ≤ b
    → b < d
    → rt.start ≤ c
    → d ≤ rt.end
    → add_sub_range rt (pos c) (pos d)
      ≡ ok (record rt {
        sub_ranges = record { first = c; last = d } ∷ rt.sub_ranges;
        wm = update rt.start (record { first = c; last = d } ∷ rt.sub_ranges);
      })
unfolding add_sub_range any_collides sort
containing_accepted rt a b c d one before long after lo hi =
    let not_from : leb a c ≡ false = ground arith in
    let not_to : leb d b ≡ false = ground arith in
    let reaches : leb a d ≡ true = le→leb a d (omega arith) in
    rw
      (
        one,
        ge→ltb d c (omega arith),
        ge→ltb c rt.start lo,
        ge→ltb rt.end d hi,
        not_from,
        not_to,
        reaches,
      )
      refl
