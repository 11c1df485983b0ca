-- ===== src/Policy/Satisfied.antt =====
-- ctpolicy: what the groups of a policy hold, and when there are none.
use certificate_transparency.Prelude.{
  ℕ, ◌≡◌, ◌≤◌, ◌<◌, ◌⊎◌, ◌↔◌, refl, Bool, true, false, List, [], ◌∷◌, length, ltb, ltb→ge, ltb→lt,
  ge→ltb, Bool-cases, inl, inr, arith,
}
use certificate_transparency.Prelude.Int.{ℤ, pos, negsuc}
use certificate_transparency.Prelude.Outcome.{ok, err, panic, diverge}
use certificate_transparency.Prelude.Text.{Text, codes}
use certificate_transparency.Submission.State.{LogGroupInfo}
use certificate_transparency.Policy.Lifetime.{
  Date, lifetime_in_months, IsAfterMonths, IsAtLeast, lifetime_in_months_lem,
}
use certificate_transparency.Policy.Groups.{
  Operator, Result, set_min_inclusions, populate, group_of, inc_count_for, too_few_logs,
}
use certificate_transparency.Policy.Listed.{IsGoogle, IsListing, populate-IsListing}

-- The number of SCTs for a certificate that is valid from one date to another: two below 15 months,
-- three below 28, four below 40, and five from then on.
abbrev pub IsWanted : Date → Date → ℕ → Type 0
IsWanted start end n =
    ((n ≡ 2) × (IsAfterMonths 15 start end → ⊥))
    ⊎ ((n ≡ 3) × IsAfterMonths 15 start end × (IsAfterMonths 28 start end → ⊥))
    ⊎ ((n ≡ 4) × IsAfterMonths 28 start end × (IsAfterMonths 40 start end → ⊥))
    ⊎ ((n ≡ 5) × IsAfterMonths 40 start end)

count_wanted :
    (m : ℤ)
    → (n : ℕ) × (inc_count_for m ≡ pos n)
      × (((n ≡ 2) × (IsAtLeast 15 m → ⊥))
          ⊎ ((n ≡ 3) × IsAtLeast 15 m × (IsAtLeast 28 m → ⊥))
          ⊎ ((n ≡ 4) × IsAtLeast 28 m × (IsAtLeast 40 m → ⊥))
          ⊎ ((n ≡ 5) × IsAtLeast 40 m))
unfolding inc_count_for
count_wanted (negsuc m) = (2, refl, inl (refl, λ h. h))
count_wanted (pos m) = elim (Bool-cases (ltb m 15)) [
  | inl low ↦ (2, rw low refl, inl (refl, λ h. absurd (omega (arith, ltb→lt m 15 low))))
  | inr a ↦ elim (Bool-cases (ltb 27 m)) [
    | inr mid ↦ (
      3,
      rw (a, mid) refl,
      inr (inl (refl, ltb→ge m 15 a, λ h. absurd (omega (arith, ltb→ge 27 m mid)))),
    )
    | inl b ↦ elim (Bool-cases (ltb 39 m)) [
      | inr high ↦ (
        4,
        rw (a, b, high) refl,
        inr (inr (inl (refl, ltb→lt 27 m b, λ h. absurd (omega (arith, ltb→ge 39 m high))))),
      )
      | inl c ↦ (5, rw (a, b, c) refl, inr (inr (inr (refl, ltb→lt 39 m c))))
    ]
  ]
]

pub inc_count_for-IsWanted :
    (start end : Date)
    → (n : ℕ) × (inc_count_for (lifetime_in_months start end) ≡ pos n) × IsWanted start end n
inc_count_for-IsWanted start end =
    let (n, count, which) = count_wanted (lifetime_in_months start end) in
    let long = λ (k : ℕ). (lifetime_in_months_lem k start end).0 in
    let back = λ (k : ℕ). (lifetime_in_months_lem k start end).1 in
    (
      n,
      count,
      elim which [
        | inl (two, below) ↦ inl (two, λ h. below (back 15 h))
        | inr (inl (three, above, below)) ↦ inr (inl (three, long 15 above, λ h. below (back 28 h)))
        | inr (inr (inl (four, above, below))) ↦
            inr (inr (inl (four, long 28 above, λ h. below (back 40 h))))
        | inr (inr (inr (five, above))) ↦ inr (inr (inr (five, long 40 above)))
      ],
    )

-- The group of that name lists the logs of the operators with a property, wants a number of SCTs, and
-- has as many logs.
pub record IsGroup (name : Text) (base : Bool) (P : Operator → Type 0) (n : ℕ) (ops : List Operator)
    (g : LogGroupInfo) : Type 0 where
  pub named : g.name ≡ name
  pub is_base : g.is_base ≡ base
  pub listed : IsListing P ops g.log_urls
  pub wanted : g.min_inclusions ≡ pos n
  pub enough : n ≤ length g.log_urls

-- The logs of the operators with a property are fewer than a number.
abbrev pub IsShort : (Operator → Type 0) → ℕ → List Operator → Type 0
IsShort P n ops = (urls : List Text) × IsListing P ops urls × (length urls < n)

abbrev pub IsAnyone : Operator → Type 0
IsAnyone op = Unit {0}

abbrev pub IsOther : Operator → Type 0
IsOther op = IsGoogle op → ⊥

-- What Chrome's policy gives for a list of approved operators.
abbrev pub IsChrome : Date → Date → List Operator → Result (List LogGroupInfo) → Type 0
IsChrome start end ops (ok groups) =
    (n : ℕ) × IsWanted start end n
    × ((goog : LogGroupInfo) × (non_goog : LogGroupInfo) × (base : LogGroupInfo) × (groups
          ≡ goog ∷ non_goog ∷ base ∷ [])
        × IsGroup (codes "Google-operated") false IsGoogle 1 ops goog
        × IsGroup (codes "Non-Google-operated") false IsOther 1 ops non_goog
        × IsGroup (codes "All-logs") true IsAnyone n ops base)
IsChrome start end ops (err e) =
    (e ≡ too_few_logs)
    × ((n : ℕ) × IsWanted start end n
        × (IsShort IsGoogle 1 ops ⊎ IsShort IsOther 1 ops ⊎ IsShort IsAnyone n ops))
IsChrome start end ops panic = ⊥
IsChrome start end ops diverge = ⊥

-- What Apple's policy gives.
abbrev pub IsApple : Date → Date → List Operator → Result (List LogGroupInfo) → Type 0
IsApple start end ops (ok groups) =
    (n : ℕ) × IsWanted start end n
    × ((base : LogGroupInfo) × (groups ≡ base ∷ [])
        × IsGroup (codes "All-logs") true IsAnyone n ops base)
IsApple start end ops (err e) =
    (e ≡ too_few_logs) × ((n : ℕ) × IsWanted start end n × IsShort IsAnyone n ops)
IsApple start end ops panic = ⊥
IsApple start end ops diverge = ⊥

pub set_min_inclusions-IsGroup :
    (name : Text) (base : Bool) (included : Operator → Bool) (P : Operator → Type 0) (n : ℕ)
    (ops : List Operator)
    → ((op : Operator) → (included op ≡ true) ↔ P op)
    → ((g : LogGroupInfo) × (set_min_inclusions (group_of name base (populate included ops)) (pos n)
          ≡ ok g)
        × IsGroup name base P n ops g)
      ⊎ ((set_min_inclusions (group_of name base (populate included ops)) (pos n)
            ≡ err too_few_logs)
          × IsShort P n ops)
unfolding set_min_inclusions
set_min_inclusions-IsGroup name base included P n ops same =
    let urls = populate included ops in
    let listing = populate-IsListing included P same ops in
    elim (Bool-cases (ltb (length urls) n)) [
      | inl few ↦
          inr (rw (ge→ltb n 0 (omega arith), few) refl, (urls, listing, ltb→lt (length urls) n few))
      | inr enough ↦ inl (
        record (group_of name base urls) { min_inclusions = pos n },
        rw (ge→ltb n 0 (omega arith), enough) refl,
        record {
          named = refl;
          is_base = refl;
          listed = listing;
          wanted = refl;
          enough = ltb→ge (length urls) n enough;
        },
      )
    ]
