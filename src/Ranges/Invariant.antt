-- ===== src/Ranges/Invariant.antt =====
-- ingestor/ranges/tracker.go: what every tracker satisfies that the operations make.
use certificate_transparency.Prelude.{
  ℕ, ◌≡◌, ◌≤◌, ◌⊎◌, inl, inr, refl, sym, ap, subst, ◌∙◌, true, false, ◌&&◌, &&_split, List, [], ◌∷◌,
  ◌++◌, ltb, leb, ltb→ge, leb→le, Bool-cases, All, arith,
}
use certificate_transparency.Prelude.Outcome.{Outcome, ok, err, ok_inj}
use certificate_transparency.Prelude.Int.{ℤ, pos, negsuc, eqz, eqz→eq, pos-ne_negsuc}
use certificate_transparency.Ranges.Tracker.{
  SubRange, Watermarks, Tracker, minus_one, update, insert_sorted, sort, RangeError, new_tracker,
  any_collides, add_sub_range, is_partially_complete, is_complete, partially_complete_upto,
}
use certificate_transparency.Ranges.Coverage.{Covered, Reached, created, added, update-UpTo}

-- Sorted by the first index.
abbrev pub IsSorted : List SubRange → Type 0
IsSorted [] = Unit {0}
IsSorted (r ∷ rs) = All (λ s. r.first ≤ s.first) rs × IsSorted rs

-- A sub-range of the range of a tracker, not empty.
abbrev pub IsInside : ℕ → ℕ → SubRange → Type 0
IsInside start end r = (start ≤ r.first) × (r.first ≤ r.last) × (r.last ≤ end)

pub record IsTracker (rt : Tracker) : Type 0 where
  pub ordered : rt.start ≤ rt.end
  pub inside : All (IsInside rt.start rt.end) rt.sub_ranges
  pub sorted : IsSorted rt.sub_ranges
  pub marks :
      ((rt.sub_ranges ≡ []) × (rt.wm.mid ≡ minus_one)) ⊎ (rt.wm ≡ update rt.start rt.sub_ranges)

module _ (P : SubRange → Type 0) where
  All-insert_sorted :
      (r : SubRange) (rs : List SubRange) → P r → All P rs → All P (insert_sorted r rs)
  unfolding insert_sorted
  All-insert_sorted r [] p ps = (p, tt)
  All-insert_sorted r (s ∷ rs) p ps = elim (Bool-cases (leb r.first s.first)) [
    | inl before ↦ rw before (p, ps)
    | inr after ↦ rw after (ps.0, All-insert_sorted r rs p ps.1)
  ]

  All-sort : (rs : List SubRange) → All P rs → All P (sort rs)
  unfolding sort
  All-sort [] ps = tt
  All-sort (r ∷ rs) ps = All-insert_sorted r (sort rs) ps.0 (All-sort rs ps.1)

  All-snoc : (rs : List SubRange) (r : SubRange) → All P rs → P r → All P (rs ++ (r ∷ []))
  All-snoc [] r ps p = (p, tt)
  All-snoc (s ∷ rs) r ps p = (ps.0, All-snoc rs r ps.1 p)

  All-map :
      {Q : SubRange → Type 0}
      → ((s : SubRange) → P s → Q s)
      → (rs : List SubRange) → All P rs
      → All Q rs
  All-map f [] ps = tt
  All-map f (s ∷ rs) ps = (f s ps.0, All-map f rs ps.1)

insert_sorted-IsSorted :
    (r : SubRange) (rs : List SubRange) → IsSorted rs → IsSorted (insert_sorted r rs)
unfolding insert_sorted
insert_sorted-IsSorted r [] h = (tt, tt)
insert_sorted-IsSorted r (s ∷ rs) h = elim (Bool-cases (leb r.first s.first)) [
  | inl before ↦ rw before (
    (
      leb→le _ _ before,
      All-map (λ s'. s.first ≤ s'.first) {Q = λ s'. r.first ≤ s'.first}
          (λ t above. omega (arith, leb→le r.first s.first before)) rs h.0,
    ),
    h,
  )
  | inr after ↦ rw after (
    All-insert_sorted (λ t. s.first ≤ t.first) r rs (ground arith) h.0,
    insert_sorted-IsSorted r rs h.1,
  )
]

sort-IsSorted : (rs : List SubRange) → IsSorted (sort rs)
unfolding sort
sort-IsSorted [] = tt
sort-IsSorted (r ∷ rs) = insert_sorted-IsSorted r (sort rs) (sort-IsSorted rs)

-- An added sub-range that is accepted: where it lies, and what is recorded.
pub add_sub_range-ok :
    (rt rt' : Tracker) (first last : ℤ)
    → add_sub_range rt first last ≡ ok rt'
    → (a : ℕ) × (b : ℕ) × (first ≡ pos a)
      × (last ≡ pos b)
      × (a ≤ b)
      × (rt.start ≤ a)
      × (b ≤ rt.end)
      × (any_collides rt.sub_ranges a b ≡ false)
      × (record rt {
        sub_ranges = sort (rt.sub_ranges ++ (record { first = a; last = b } ∷ []));
        wm = update rt.start (sort (rt.sub_ranges ++ (record { first = a; last = b } ∷ [])));
      }
          ≡ rt')
unfolding add_sub_range
add_sub_range-ok rt rt' (pos a) (pos b) h =
    (a, b, refl, refl, ground arith, ground arith, ground arith, ground arith, ground arith)
add_sub_range-ok rt rt' (negsuc a) (pos b) h = ground arith
add_sub_range-ok rt rt' (negsuc a) (negsuc b) h = ground arith
add_sub_range-ok rt rt' (pos a) (negsuc b) h = ground arith

created-IsTracker : (start end : ℤ) (rt : Tracker) → new_tracker start end ≡ ok rt → IsTracker rt
unfolding new_tracker
created-IsTracker (pos start) (pos end) rt h = elim (Bool-cases (ltb end start)) [
  | inl down ↦ absurd (refused (rw down at h))
  | inr up ↦
      subst IsTracker (ok_inj (rw up at h)) (record {
        ordered = ltb→ge end start up;
        inside = tt;
        sorted = tt;
        marks = inl (refl, refl);
      })
]
  where
    refused : {e : RangeError} → ◌≡◌ {A = Outcome RangeError Tracker} (err e) (ok rt) → ⊥
    refused h' = cc
created-IsTracker (negsuc start) end rt h = absurd (ground arith)
created-IsTracker (pos start) (negsuc end) rt h = absurd (ground arith)

-- The constructor and AddSubRange keep the invariant: the range is not inverted, the sub-ranges are
-- not empty, lie in it and are sorted, and the watermarks are those of the sub-ranges.
pub Reached-IsTracker : (rt : Tracker) → Reached rt → IsTracker rt
Reached-IsTracker _ (created start end rt h) = created-IsTracker start end rt h
Reached-IsTracker _ (added rt rt' first last from h) =
    let (a, b, _, _, le, lo, hi, clear, same) = add_sub_range-ok rt rt' first last h in
    let old : IsTracker rt = Reached-IsTracker rt from in
    let all : List SubRange = rt.sub_ranges ++ (record { first = a; last = b } ∷ []) in
    subst IsTracker same (record {
      ordered = old.ordered;
      inside = All-sort (IsInside rt.start rt.end) all (
          All-snoc (IsInside rt.start rt.end) rt.sub_ranges (record { first = a; last = b })
            old.inside (lo, le, hi));
      sorted = sort-IsSorted all;
      marks = inr refl;
    })

-- PartiallyCompleteUpto is right: every index from the start of the range up to the one it returns
-- is in a sub-range that was added, in whatever order.
pub partially_complete_upto-Covered :
    (rt : Tracker) (m i : ℕ)
    → Reached rt
    → partially_complete_upto rt ≡ pos m
    → rt.start ≤ i
    → i ≤ m
    → Covered i rt.sub_ranges
unfolding partially_complete_upto
partially_complete_upto-Covered rt m i reached upto lo hi =
    elim ((Reached-IsTracker rt reached).marks) [
      | inl fresh ↦ absurd (pos-ne_negsuc (sym upto ∙ fresh.1))
      | inr marks ↦
          update-UpTo rt.start rt.sub_ranges m i (ap (λ (w : Watermarks). w.mid) (sym marks) ∙ upto)
            lo hi
    ]

-- A tracker that its operations made and that is complete has every index of its range in a sub-range that was added.
pub is_complete-Covered :
    (rt : Tracker) (i : ℕ)
    → Reached rt
    → is_complete rt ≡ true
    → rt.start ≤ i
    → i ≤ rt.end
    → Covered i rt.sub_ranges
unfolding is_complete partially_complete_upto
is_complete-Covered rt i reached h lo hi =
    let (started, at_end) =
      &&_split (is_partially_complete rt && eqz rt.wm.mid rt.wm.hi) (eqz rt.wm.hi (pos rt.end)) h in
    let (_, at_hi) = &&_split (is_partially_complete rt) (eqz rt.wm.mid rt.wm.hi) started in
    partially_complete_upto-Covered rt rt.end i reached
      (eqz→eq rt.wm.mid rt.wm.hi at_hi ∙ eqz→eq rt.wm.hi (pos rt.end) at_end) lo hi
