-- ===== src/Policy/Given.antt =====
-- ctpolicy/chromepolicy.go and applepolicy.go: what the policies give, group by group.
use certificate_transparency.Prelude.{◌≡◌, ◌↔◌, refl, Bool, true, false, not, List, inl, inr, arith}
use certificate_transparency.Prelude.Text.{codes}
use certificate_transparency.Policy.Lifetime.{Date}
use certificate_transparency.Policy.Groups.{
  Operator, google_operated, base_group_for, apple_logs_by_group, chrome_logs_by_group,
}
use certificate_transparency.Policy.Listed.{IsGoogle, google_operated_iff}
use certificate_transparency.Policy.Satisfied.{
  IsAnyone, IsOther, IsChrome, IsApple, inc_count_for-IsWanted, set_min_inclusions-IsGroup,
}

IsOther-iff : (op : Operator) → (not (google_operated op) ≡ true) ↔ IsOther op
IsOther-iff op = (
  λ h. λ g. not_both (google_operated op) h ((google_operated_iff op).1 g),
  λ h. apart (google_operated op) (λ g. h ((google_operated_iff op).0 g)),
)
  where
    not_both : (b : Bool) → not b ≡ true → b ≡ true → ⊥
    not_both b h g = ground arith

    apart : (b : Bool) → (b ≡ true → ⊥) → not b ≡ true
    apart true h = absurd (h refl)
    apart false h = refl

populate-IsChrome :
    (start end : Date) (ops : List Operator)
    → IsChrome start end ops (chrome_logs_by_group start end ops)
unfolding chrome_logs_by_group base_group_for
populate-IsChrome start end ops =
    let (n, count, which) = inc_count_for-IsWanted start end in
    rw count
      (elim (set_min_inclusions-IsGroup (codes "Google-operated") false google_operated IsGoogle 1
        ops google_operated_iff) [
          | inr (refused, few) ↦ rw refused (refl, (n, which, inl few))
          | inl (goog, set0, k0) ↦
              rw set0
                (elim (set_min_inclusions-IsGroup (codes "Non-Google-operated") false
                  (λ op. not (google_operated op)) IsOther 1 ops IsOther-iff) [
                    | inr (refused, few) ↦ rw refused (refl, (n, which, inr (inl few)))
                    | inl (non_goog, set1, k1) ↦
                        rw set1
                          (elim (set_min_inclusions-IsGroup (codes "All-logs") true (λ op. true)
                            IsAnyone n ops (λ op. (λ h. tt, λ h. refl))) [
                              | inr (refused, few) ↦ rw refused (refl, (n, which, inr (inr few)))
                              | inl (base, set2, k2) ↦
                                  rw set2 (n, which, (goog, non_goog, base, refl, k0, k1, k2))
                            ])
                  ])
        ])

base_group_for-IsApple :
    (start end : Date) (ops : List Operator)
    → IsApple start end ops (apple_logs_by_group start end ops)
unfolding apple_logs_by_group base_group_for
base_group_for-IsApple start end ops =
    let (n, count, which) = inc_count_for-IsWanted start end in
    rw count
      (elim (set_min_inclusions-IsGroup (codes "All-logs") true (λ op. true) IsAnyone n ops
        (λ op. (λ h. tt, λ h. refl))) [
          | inr (refused, few) ↦ rw refused (refl, (n, which, few))
          | inl (base, set, k) ↦ rw set (n, which, (base, refl, k))
        ])

-- Chrome's policy gives three groups: the logs of the approved operators that have one of Google's
-- addresses, those of the others, and all logs, each URL once. They want one SCT, one, and n, and have
-- at least as many logs: n is 2 for a lifetime below 15 months, 3 below 28 months, 4 below 40 months,
-- and 5 from then on. Apple's policy gives the group of all logs alone. Each policy refuses only where
-- one of its groups has fewer logs than are wanted.
pub chrome_logs_by_group-IsChrome :
    (start end : Date) (approved : List Operator)
    → IsChrome start end approved (chrome_logs_by_group start end approved)
      × IsApple start end approved (apple_logs_by_group start end approved)
chrome_logs_by_group-IsChrome start end approved =
    (populate-IsChrome start end approved, base_group_for-IsApple start end approved)
