-- ===== src/Ctfe/Checked.antt =====
-- trillian/ctfe/handlers.go: what the tests of getEntries on an answer of the backend let through.
use certificate_transparency.Prelude.{
  ℕ, suc, ◌+◌, ◌-◌, ◌^◌, ◌≡◌, ◌≤◌, ◌<◌, inl, inr, refl, ap, ◌∙◌, Bool, true, false, List, [], ◌∷◌,
  Option, none, some, some_inj, if◌then◌else◌, Bool-cases, true-ne_false, length, arith,
}
use certificate_transparency.Prelude.Int.{pos, ltz, eqz, eqz→eq}
use certificate_transparency.Prelude.Int64.{add64, sub64, add64-pos, sub64-pos}
use certificate_transparency.Prelude.Outcome.{ok, err, panic, diverge, ok_inj}
use certificate_transparency.Ctfe.Backend.{Handled, LogLeaf, or_missing}
use certificate_transparency.Ctfe.Sorted.{IsIndexed}
use certificate_transparency.Ctfe.Leaves.{insert_leaf, sort_leaves, check_indices}

pub check_indices-IsIndexed :
    (index : ℕ) (ls : List LogLeaf)
    → index + length ls < 2 ^ 63
    → check_indices (pos index) ls ≡ true
    → IsIndexed index ls
unfolding check_indices
check_indices-IsIndexed index [] small h = tt
check_indices-IsIndexed index (l ∷ ls) small h = elim (Bool-cases (eqz l.leaf_index (pos index))) [
  | inl same ↦ (
    eqz→eq l.leaf_index (pos index) same,
    check_indices-IsIndexed (index + 1) ls (omega arith)
        (rw (same, add64-pos index 1 (omega arith)) at h),
  )
  | inr apart ↦ absurd (true-ne_false (rw apart at h) refl)
]

-- What the tests on an answer let through.
pub tested :
    {A : Type 0} (b c d : Bool) (x : Handled A) (r : A)
    → (if b then err 400 else if c then err 500 else if d then x else err 500) ≡ ok r
    → (b ≡ false) × (c ≡ false) × (d ≡ true) × (x ≡ ok r)
tested true c d x r h = cc
tested false true d x r h = cc
tested false false true x r h = (refl, refl, refl, h)
tested false false false x r h = cc

pub kept :
    {A : Type 0} (b d : Bool) (x r : A)
    → (if b then none else if d then some x else none) ≡ some r
    → (b ≡ false) × (d ≡ true) × (x ≡ r)
kept true d x r h = cc
kept false true x r h = (refl, refl, some_inj h)
kept false false x r h = cc

pub passed :
    {A : Type 0} (b : Bool) (o : Option A) (r : A)
    → (if b then err 400 else or_missing 500 o) ≡ ok r
    → (b ≡ false) × (o ≡ some r)
passed true o r h = cc
passed false none r h = cc
passed false (some x) r h = (refl, ap some (ok_inj h))

pub not_panic :
    {A : Type 0} (b : Bool) (r : Handled A) (a : A)
    → (if b then panic else r) ≡ ok a
    → (b ≡ false) × (r ≡ ok a)
not_panic true r a h = cc
not_panic false r a h = (refl, h)

pub not_diverge :
    {A : Type 0} (b : Bool) (r : Handled A) (a : A)
    → (if b then diverge else r) ≡ ok a
    → (b ≡ false) × (r ≡ ok a)
not_diverge true r a h = cc
not_diverge false r a h = (refl, h)

length-insert_leaf : (x : LogLeaf) (ys : List LogLeaf) → length (insert_leaf x ys) ≡ suc (length ys)
unfolding insert_leaf
length-insert_leaf x [] = refl
length-insert_leaf x (y ∷ ys) = elim (Bool-cases (ltz y.leaf_index x.leaf_index)) [
  | inl less ↦ rw less (ap suc (length-insert_leaf x ys))
  | inr more ↦ rw more refl
]

pub length-sort_leaves : (xs : List LogLeaf) → length (sort_leaves xs) ≡ length xs
unfolding sort_leaves
length-sort_leaves [] = refl
length-sort_leaves (x ∷ xs) = length-insert_leaf x (sort_leaves xs) ∙ ap suc (length-sort_leaves xs)

-- The number of indices of a range.
pub count_lem :
    (start last : ℕ)
    → start ≤ last
    → last + 1 < 2 ^ 63
    → sub64 (add64 (pos last) (pos 1)) (pos start) ≡ pos (last + 1 - start)
count_lem start last ordered small =
    rw (add64-pos last 1 small) (sub64-pos (last + 1) start (omega arith) small)
