-- ===== src/Policy/Lifetime.antt =====
-- ctpolicy/ctpolicy.go: the lifetime of a certificate in months.
use certificate_transparency.Prelude.{
  ℕ, ◌+◌, ◌-◌, ◌*◌, ◌≡◌, ◌≤◌, ◌<◌, ◌⊎◌, inl, inr, if◌then◌else◌, ltb, Bool-cases, arith,
}
use certificate_transparency.Prelude.Int.{ℤ, pos, negsuc}
use certificate_transparency.Submission.State.{predz}

-- What `Date` returns of a time.
pub record Date : Type 0 where
  pub year : ℕ
  pub month : ℕ
  pub day : ℕ

-- The difference of two natural numbers.
unfoldable pub subz : ℕ → ℕ → ℤ
subz m n = if ltb m n then negsuc (n - m - 1) else pos (m - n)

-- `lifetimeInMonths`. The source subtracts years and months apart, which gives the same.
unfoldable pub lifetime_in_months : Date → Date → ℤ
unfolding subz
lifetime_in_months start end =
    let months = subz (end.year * 12 + end.month) (start.year * 12 + start.month) in
    if ltb end.day start.day then predz months else months

-- The day of the month `n` months after a date is not after another date.
abbrev pub IsAfterMonths : ℕ → Date → Date → Type 0
IsAfterMonths n start end =
    (start.year * 12 + start.month + n < end.year * 12 + end.month)
    ⊎ ((start.year * 12 + start.month + n ≡ end.year * 12 + end.month) × (start.day ≤ end.day))

abbrev pub IsAtLeast : ℕ → ℤ → Type 0
IsAtLeast n (pos m) = n ≤ m
IsAtLeast n (negsuc m) = ⊥

-- The lifetime in months is right: it is at least a number of months exactly where the day so many
-- months after the start, by the calendar, is not after the end.
pub lifetime_in_months_lem :
    (n : ℕ) (start end : Date)
    → (IsAtLeast n (lifetime_in_months start end) → IsAfterMonths n start end)
      × (IsAfterMonths n start end → IsAtLeast n (lifetime_in_months start end))
unfolding lifetime_in_months
lifetime_in_months_lem n start end = elim (Bool-cases (ltb end.day start.day)) [
  | inl early ↦ rw early ((λ h. ground arith), (λ h. ground arith))
  | inr late ↦ rw late ((λ h. ground arith), (λ h. ground arith))
]
