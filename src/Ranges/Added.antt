-- ===== src/Ranges/Added.antt =====
-- ingestor/ranges/tracker.go: what AddSubRange records.
use certificate_transparency.Prelude.{
  ℕ, ◌≡◌, ◌≤◌, ◌⊎◌, inl, inr, sym, ap, subst, List, [], ◌∷◌, ◌++◌, leb, Bool-cases, arith,
}
use certificate_transparency.Prelude.Outcome.{ok}
use certificate_transparency.Prelude.Int.{ℤ, pos}
use certificate_transparency.Ranges.Tracker.{SubRange, Tracker, insert_sorted, sort, add_sub_range}
use certificate_transparency.Ranges.Coverage.{Covered}
use certificate_transparency.Ranges.Invariant.{add_sub_range-ok}

abbrev Holds : SubRange → ℕ → Type 0
Holds r i = (r.first ≤ i) × (i ≤ r.last)

Covered-insert_sorted :
    (i : ℕ) (r : SubRange) (rs : List SubRange)
    → (Covered i (insert_sorted r rs) → Holds r i ⊎ Covered i rs)
      × (Holds r i ⊎ Covered i rs → Covered i (insert_sorted r rs))
unfolding insert_sorted
Covered-insert_sorted i r [] = ((λ c. c), (λ c. c))
Covered-insert_sorted i r (s ∷ rs) = elim (Bool-cases (leb r.first s.first)) [
  | inl before ↦ rw before ((λ c. c), (λ c. c))
  | inr after ↦
      let (there, back) = Covered-insert_sorted i r rs in
      rw after (ground (arith, there, back), ground (arith, there, back))
]

Covered-sort :
    (i : ℕ) (rs : List SubRange)
    → (Covered i (sort rs) → Covered i rs) × (Covered i rs → Covered i (sort rs))
unfolding sort
Covered-sort i [] = ((λ c. c), (λ c. c))
Covered-sort i (r ∷ rs) =
    let (there, back) = Covered-sort i rs in
    let (into, out) = Covered-insert_sorted i r (sort rs) in
    (ground (arith, there, into), ground (arith, back, out))

Covered-snoc :
    (i : ℕ) (rs : List SubRange) (r : SubRange)
    → (Covered i (rs ++ (r ∷ [])) → Covered i rs ⊎ Holds r i)
      × (Covered i rs ⊎ Holds r i → Covered i (rs ++ (r ∷ [])))
Covered-snoc i [] r = (ground arith, ground arith)
Covered-snoc i (s ∷ rs) r =
    let (there, back) = Covered-snoc i rs r in (ground (arith, there), ground (arith, back))

-- AddSubRange records the sub-range it accepts and nothing else: the indices that are covered
-- afterwards are those that were and those of the new one.
pub add_sub_range-Covered :
    (rt rt' : Tracker) (first last : ℤ) (i : ℕ)
    → add_sub_range rt first last ≡ ok rt'
    → (a : ℕ) × (b : ℕ) × (first ≡ pos a)
      × (last ≡ pos b)
      × (Covered i rt'.sub_ranges → Covered i rt.sub_ranges ⊎ ((a ≤ i) × (i ≤ b)))
      × (Covered i rt.sub_ranges ⊎ ((a ≤ i) × (i ≤ b)) → Covered i rt'.sub_ranges)
add_sub_range-Covered rt rt' first last i h =
    let (a, b, f, l, le, lo, hi, clear, same) = add_sub_range-ok rt rt' first last h in
    let new : SubRange = record { first = a; last = b } in
    let (there, back) = Covered-sort i (rt.sub_ranges ++ (new ∷ [])) in
    let (apart, together) = Covered-snoc i rt.sub_ranges new in
    let list : sort (rt.sub_ranges ++ (new ∷ [])) ≡ rt'.sub_ranges =
      ap (λ (z : Tracker). z.sub_ranges) same in
    (
      a,
      b,
      f,
      l,
      (λ c. apart (there (subst (Covered i) (sym list) c))),
      (λ c. subst (Covered i) list (back (together c))),
    )
