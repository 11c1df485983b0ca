-- ===== src/Ranges/Coverage.antt =====
-- ingestor/ranges/tracker.go: what the watermarks say of the indices that were recorded.
use certificate_transparency.Prelude.{
  ℕ, ◌+◌, ◌-◌, ◌^◌, ◌≡◌, ◌≤◌, ◌<◌, ◌⊎◌, inl, inr, sym, ◌∙◌, true, List, [], ◌∷◌, ltb, ltb→lt,
  ltb→ge, ◌==◌, Bool-cases, arith,
}
use certificate_transparency.Prelude.Outcome.{ok}
use certificate_transparency.Prelude.Int.{ℤ, pos, eqz, eqz→eq, pos_inj, pos-ne_negsuc}
use certificate_transparency.Ranges.Tracker.{
  SubRange, Tracker, minus_one, max_int64, succ64, contiguous, extent, update, new_tracker,
  add_sub_range,
}

-- An index is in one of the sub-ranges.
abbrev pub Covered : ℕ → List SubRange → Type 0
Covered i [] = ⊥
Covered i (r ∷ rs) = ((r.first ≤ i) × (i ≤ r.last)) ⊎ Covered i rs

-- The trackers that a program can have.
pub data Reached : Tracker → Type 0 where
  created : (start end : ℤ) (rt : Tracker) → new_tracker start end ≡ ok rt → Reached rt
  added :
      (rt rt' : Tracker) (first last : ℤ)
      → Reached rt
      → add_sub_range rt first last ≡ ok rt'
      → Reached rt'

succ64_lem : (a b : ℕ) → succ64 a ≡ pos b → b ≡ a + 1
succ64_lem a b h = elim (Bool-cases (a == 2 ^ 63 - 1)) [
  | inl top ↦ absurd (pos-ne_negsuc (sym (rw top at h)))
  | inr below ↦ sym (pos_inj (rw below at h))
]

-- All indices from `start` up to a mark, the mark itself left out or not.
abbrev Below : ℕ → ℤ → List SubRange → Type 0
Below start next srs = (n i : ℕ) → next ≡ pos n → start ≤ i → i < n → Covered i srs

abbrev pub UpTo : ℕ → ℤ → List SubRange → Type 0
UpTo start mid srs = (m i : ℕ) → mid ≡ pos m → start ≤ i → i ≤ m → Covered i srs

module _ (start : ℕ) (all : List SubRange) where
  contiguous-UpTo :
      (srs : List SubRange) (next mid : ℤ)
      → ((i : ℕ) → Covered i srs → Covered i all)
      → Below start next all
      → UpTo start mid all
      → UpTo start (contiguous next mid srs) all
  unfolding contiguous
  contiguous-UpTo [] next mid part below upto = upto
  contiguous-UpTo (r ∷ rs) next mid part below upto = elim (Bool-cases (eqz (pos r.first) next)) [
    | inr apart ↦
        rw (apart, contiguous) (contiguous-UpTo rs next mid (λ i c. part i (inr c)) below upto)
    | inl joins ↦
        rw (joins, contiguous)
          (contiguous-UpTo rs (succ64 r.last) (pos r.last) (λ i c. part i (inr c))
            (λ n i e lo hi. reaches i lo (omega (arith, succ64_lem r.last n e)) joins)
            (λ m i e lo hi. reaches i lo (omega (arith, pos_inj e)) joins))
  ]
    where
      reaches : (i : ℕ) → start ≤ i → i ≤ r.last → eqz (pos r.first) next ≡ true → Covered i all
      reaches i lo hi joins = elim (Bool-cases (ltb i r.first)) [
        | inl before ↦
            below r.first i (sym (eqz→eq (pos r.first) next joins)) lo (ltb→lt i r.first before)
        | inr from ↦ part i (inl (ltb→ge i r.first from, hi))
      ]

pub update-UpTo : (start : ℕ) (srs : List SubRange) → UpTo start ((update start srs).mid) srs
unfolding update
update-UpTo start srs m i e lo hi =
    elim (Bool-cases (eqz ((extent max_int64 minus_one srs).0) (pos start))) [
      | inr apart ↦ absurd (pos-ne_negsuc (sym (rw apart at e)))
      | inl at_start ↦
          contiguous-UpTo start srs srs ((extent max_int64 minus_one srs).0) minus_one (λ j c. c)
            (λ n j same lo' hi'. absurd (omega (arith, pos_inj (sym same ∙ eqz→eq _ _ at_start))))
            (λ n j none lo' hi'. absurd (pos-ne_negsuc (sym none))) m i (rw at_start at e) lo hi
    ]
