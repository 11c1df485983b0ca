-- ===== src/Multilog/Contiguous.antt =====
-- client/multilog.go: the intervals of a client that was made, and the one that a date is in.
use certificate_transparency.Prelude.{
  ℕ, zero, suc, ◌+◌, ◌≡◌, refl, ap, subst, sym, ◌∙◌, inl, inr, Bool, true, false, not, ◌&&◌, List,
  [], ◌∷◌, Option, none, some, some_inj, if◌then◌else◌, Bool-cases, true-ne_false, get_elem?, arith,
}
use certificate_transparency.Prelude.Int.{ℤ, ltz, ltz_trans}
use certificate_transparency.Prelude.Outcome.{ok, ok_inj}
use certificate_transparency.Multilog.Shards.{
  Interval, is_inverted, is_before_lower, is_past_upper, index_from, index_by_date,
}

-- A date that is not before the lower bound, and before the upper one.
abbrev pub encloses : Interval → ℤ → Bool
encloses i when = not (is_before_lower when i.lower) && not (is_past_upper when i.upper)

-- Each interval after one with this upper bound starts where the one before ends, and has an end
-- after its start.
abbrev pub IsContiguous : Option ℤ → List Interval → Type 0
IsContiguous upper [] = Unit {0}
IsContiguous upper (i ∷ is) =
    (at : ℤ) × (upper ≡ some at)
    × (i.lower ≡ some at)
    × (is_inverted i.lower i.upper ≡ false)
    × IsContiguous i.upper is

-- A row of intervals: they follow on one another, and none ends before it starts.
abbrev pub IsRow : List Interval → Type 0
IsRow [] = ⊥
IsRow (i ∷ is) = (is_inverted i.lower i.upper ≡ false) × IsContiguous i.upper is

-- The upper bound of the last interval.
abbrev pub last_upper : Option ℤ → List Interval → Option ℤ
last_upper upper [] = upper
last_upper upper (i ∷ is) = last_upper i.upper is

abbrev pub first_lower : List Interval → Option ℤ
first_lower [] = none
first_lower (i ∷ is) = i.lower

-- An interval of the row that has the date.
abbrev pub IsAt : List Interval → ℤ → ℕ → Type 0
IsAt is when n = (j : Interval) × (get_elem? is n ≡ some j) × (encloses j when ≡ true)

not-false : (b : Bool) → not b ≡ false → b ≡ true
not-false b h = ground arith

-- A date before an interval's end is in none of the later ones.
later-encloses :
    (upper : Option ℤ) (at when : ℤ) (is : List Interval) (n : ℕ) (j : Interval)
    → IsContiguous upper is
    → upper ≡ some at
    → ltz when at ≡ true
    → get_elem? is n ≡ some j
    → encloses j when ≡ false
later-encloses upper at when [] n j h is_at early got = cc
later-encloses upper at when (i ∷ is) zero j (at', u, l, v, more) is_at early got =
    let same : at' ≡ at = some_inj (sym u ∙ is_at) in
    let here : i.lower ≡ some at = l ∙ ap some same in rw (sym (some_inj got), here, early) refl
later-encloses upper at when (i ∷ []) (suc n) j (at', u, l, v, more) is_at early got = cc
later-encloses upper at when (i ∷ k ∷ ks) (suc n) j (at', u, l, v, more) is_at early got =
    let (end, is_end, l2, v2, more2) = more in
    let same : at' ≡ at = some_inj (sym u ∙ is_at) in
    let grows : not (ltz at end) ≡ false = rw (l, is_end, same) at v in
    later-encloses i.upper end when (k ∷ ks) n j more is_end
      (ltz_trans when at end early (not-false (ltz at end) grows)) got

index_from-enclosed :
    (m : ℕ) (i : Interval) (is : List Interval) (when : ℤ)
    → encloses i when ≡ true
    → index_from m (i ∷ is) when ≡ ok m
unfolding index_from
index_from-enclosed m i is when h =
    let (low, high) = both (is_before_lower when i.lower) (is_past_upper when i.upper) h in
    rw (low, high) refl
  where
    both : (a b : Bool) → not a && not b ≡ true → (a ≡ false) × (b ≡ false)
    both a b e = ground arith

index_from-passed :
    (m : ℕ) (i : Interval) (is : List Interval) (when : ℤ)
    → encloses i when ≡ false
    → index_from m (i ∷ is) when ≡ index_from (m + 1) is when
unfolding index_from
index_from-passed m i is when h =
    either (index_from (m + 1) is when) (ok m) (is_before_lower when i.lower)
      (is_past_upper when i.upper) h
  where
    either :
        {A : Type 0} (x y : A) (a b : Bool)
        → not a && not b ≡ false
        → (if a then x else if b then x else y) ≡ x
    either x y true b e = refl
    either x y false true e = refl
    either x y false false e = cc

index_from-eq-ok :
    (m r : ℕ) (is : List Interval) (when : ℤ)
    → index_from m is when ≡ ok r
    → (n : ℕ) × (j : Interval) × (r ≡ m + n) × (get_elem? is n ≡ some j) × (encloses j when ≡ true)
unfolding index_from
index_from-eq-ok m r [] when h = cc
index_from-eq-ok m r (i ∷ is) when h = elim (Bool-cases (encloses i when)) [
  | inl within ↦
      (0, i, ok_inj (sym h ∙ index_from-enclosed m i is when within) ∙ omega arith, refl, within)
  | inr out ↦
      let (n, j, same, got, within) =
        index_from-eq-ok (m + 1) r is when (sym (index_from-passed m i is when out) ∙ h) in
      (suc n, j, omega (arith, same), got, within)
]

-- What IndexByDate returns is in range, and the date is in that interval.
pub index_by_date-IsAt :
    (is : List Interval) (when : ℤ) (n : ℕ) → index_by_date is when ≡ ok n → IsAt is when n
unfolding index_by_date
index_by_date-IsAt is when n h =
    let (m, j, same, got, within) = index_from-eq-ok 0 n is when h in
    (j, subst (λ (k : ℕ). get_elem? is k ≡ some j) (omega (arith, same)) got, within)

first-encloses :
    (i : Interval) (is : List Interval) (when : ℤ) (n : ℕ) (j : Interval)
    → IsContiguous i.upper is
    → encloses i when ≡ true
    → get_elem? is n ≡ some j
    → encloses j when ≡ false
first-encloses i [] when n j h within got = cc
first-encloses i (k ∷ ks) when n j (at, u, l, v, more) within got =
    later-encloses i.upper at when (k ∷ ks) n j (at, u, l, v, more) u
      (before_end (is_before_lower when i.lower) (ltz when at) (rw u at within)) got
  where
    before_end : (a b : Bool) → not a && not (not b) ≡ true → b ≡ true
    before_end a b e = ground arith

pub index_from-found :
    (m n : ℕ) (is : List Interval) (when : ℤ) (j : Interval)
    → IsRow is
    → get_elem? is n ≡ some j
    → encloses j when ≡ true
    → index_from m is when ≡ ok (m + n)
index_from-found m n [] when j row got within = cc
index_from-found m zero (i ∷ is) when j row got within =
    index_from-enclosed m i is when (ap (λ (k : Interval). encloses k when) (some_inj got) ∙ within)
    ∙ ap ok (omega arith)
index_from-found m (suc n) (i ∷ []) when j row got within = cc
index_from-found m (suc n) (i ∷ k ∷ ks) when j (forward, (at, u, l, v, more)) got within =
    elim (Bool-cases (encloses i when)) [
      | inl first ↦
          absurd (
            true-ne_false within (first-encloses i (k ∷ ks) when n j (at, u, l, v, more) first got))
      | inr out ↦
          index_from-passed m i (k ∷ ks) when out
          ∙ index_from-found (m + 1) n (k ∷ ks) when j (v, more) got within
          ∙ ap ok (omega arith)
    ]

pub enclosed-total :
    (i : Interval) (is : List Interval) (when : ℤ)
    → is_before_lower when i.lower ≡ false
    → IsContiguous i.upper is
    → is_past_upper when (last_upper i.upper is) ≡ false
    → (n : ℕ) × IsAt (i ∷ is) when n
enclosed-total i [] when low h high = (0, (i, refl, rw (low, high) refl))
enclosed-total i (k ∷ ks) when low (at, u, l, v, more) high = elim (Bool-cases (ltz when at)) [
  | inl early ↦ (0, (i, refl, rw (low, u, early) refl))
  | inr late ↦
      let (n, (j, got, within)) = enclosed-total k ks when (rw (l) late) more high in
      (suc n, (j, got, within))
]
