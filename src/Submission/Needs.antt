-- ===== src/Submission/Needs.antt =====
-- submission/races.go: what an SCT changes in what the groups need.
use certificate_transparency.Prelude.{
  ◌≡◌, refl, ap, subst, ◌∙◌, Bool, true, false, ◌||◌, List, [], ◌∷◌, Bool-cases, inl, inr, arith,
}
use certificate_transparency.Prelude.Int.{ℤ, pos, ltz}
use certificate_transparency.Prelude.Text.{Text, text_eq, Map, lookup, insert}
use certificate_transparency.Submission.State.{
  LogGroupInfo, has_text, add_name, groups_of_log, need_of, predz, take_needs,
}
use certificate_transparency.Submission.Keys.{text_eq→eq, lookup-insert, lookup-insert_other}

-- No name stands twice.
abbrev pub IsDistinct : List Text → Type 0
IsDistinct [] = Unit {0}
IsDistinct (x ∷ xs) = (has_text x xs ≡ false) × IsDistinct xs

pub add_name-IsDistinct : (x : Text) (xs : List Text) → IsDistinct xs → IsDistinct (add_name x xs)
unfolding add_name
add_name-IsDistinct x xs h = elim (Bool-cases (has_text x xs)) [
  | inl old ↦ rw old h
  | inr new ↦ rw new (new, h)
]

pub groups_of_log-IsDistinct :
    (gs : List LogGroupInfo) (url : Text) → IsDistinct (groups_of_log gs url)
unfolding groups_of_log
groups_of_log-IsDistinct [] url = tt
groups_of_log-IsDistinct (g ∷ gs) url = elim (Bool-cases (has_text url g.log_urls)) [
  | inl member ↦
      rw (member, groups_of_log)
        (add_name-IsDistinct g.name (groups_of_log gs url) (groups_of_log-IsDistinct gs url))
  | inr other ↦ rw (other, groups_of_log) (groups_of_log-IsDistinct gs url)
]

abbrev pub need : Text → Map ℤ → ℤ
need n needs = need_of (lookup n needs)

pub need-take_needs_other :
    (n : Text) (gs : List Text) (needs : Map ℤ)
    → has_text n gs ≡ false
    → need n ((take_needs gs needs).1) ≡ need n needs
unfolding take_needs has_text
need-take_needs_other n [] needs h = refl
need-take_needs_other n (g ∷ gs) needs h =
    let (first, rest) = or_false (text_eq g n) (has_text n gs) h in
    need-take_needs_other n gs (insert g (predz (need g needs)) needs) rest
    ∙ ap need_of (lookup-insert_other n g (predz (need g needs)) needs first)
  where
    or_false : (a b : Bool) → (a || b) ≡ false → (a ≡ false) × (b ≡ false)
    or_false a b e = ground arith

-- What a need and the test become, for one of the groups.
abbrev pub IsTaken : Text → List Text → Map ℤ → Type 0
IsTaken n gs needs =
    (need n ((take_needs gs needs).1) ≡ predz (need n needs))
    × (ltz (pos 0) (need n needs) ≡ true → (take_needs gs needs).0 ≡ true)

first_IsTaken :
    (g : Text) (gs : List Text) (needs : Map ℤ) → has_text g gs ≡ false → IsTaken g (g ∷ gs) needs
unfolding take_needs
first_IsTaken g gs needs once = (
  need-take_needs_other g gs (insert g (predz (need g needs)) needs) once
      ∙ ap need_of (lookup-insert g (predz (need g needs)) needs),
  λ more.
      or_left (ltz (pos 0) (need g needs))
        ((take_needs gs (insert g (predz (need g needs)) needs)).0) more,
)
  where
    or_left : (a b : Bool) → a ≡ true → (a || b) ≡ true
    or_left a b e = ground arith

or_right : (a b : Bool) → b ≡ true → (a || b) ≡ true
or_right a b e = ground arith

pub need-take_needs :
    (n : Text) (gs : List Text) (needs : Map ℤ)
    → IsDistinct gs
    → has_text n gs ≡ true
    → IsTaken n gs needs
unfolding take_needs has_text
need-take_needs n [] needs set h = cc
need-take_needs n (g ∷ gs) needs set h = elim (Bool-cases (text_eq g n)) [
  | inl same ↦
      let e : g ≡ n = text_eq→eq g n same in
      subst (λ m. IsTaken m (g ∷ gs) needs) e (first_IsTaken g gs needs set.0)
  | inr other ↦
      let still : need n (insert g (predz (need g needs)) needs) ≡ need n needs =
        ap need_of (lookup-insert_other n g (predz (need g needs)) needs other) in
      let (taken, wanted) =
        need-take_needs n gs (insert g (predz (need g needs)) needs) set.1 (rw other at h) in
      (
        taken ∙ ap predz still,
        λ more. or_right (ltz (pos 0) (need g needs)) _ (wanted (ap (ltz (pos 0)) still ∙ more)),
      )
]
