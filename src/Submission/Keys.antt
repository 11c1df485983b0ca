-- ===== src/Submission/Keys.antt =====
-- submission/races.go: the maps of the submission state, by their keys.
use certificate_transparency.Prelude.{
  ◌≡◌, refl, ap, subst, sym, ◌∙◌, true, false, &&_split, true-ne_false, some, [], ◌∷◌, ◌==◌,
  Bool-cases, inl, inr, arith,
}
use mathlib.Core.Path.{ap₂}
use certificate_transparency.Prelude.Text.{Text, text_eq, text_eq_refl, Map, lookup, insert}

pub text_eq→eq : (a b : Text) → text_eq a b ≡ true → a ≡ b
unfolding text_eq
text_eq→eq [] [] h = refl
text_eq→eq [] (y ∷ ys) h = cc
text_eq→eq (x ∷ xs) [] h = cc
text_eq→eq (x ∷ xs) (y ∷ ys) h =
    let (first, rest) = &&_split (x == y) (text_eq xs ys) h in
    ap₂ ◌∷◌ (ground arith) (text_eq→eq xs ys rest)

module _ {V : Type 0} where
  pub lookup-insert : (k : Text) (v : V) (m : Map V) → lookup k (insert k v m) ≡ some v
  unfolding lookup insert
  lookup-insert k v [] = rw (text_eq_refl k) refl
  lookup-insert k v ((j, w) ∷ m) = elim (Bool-cases (text_eq j k)) [
    | inl same ↦ rw (same, lookup) (rw same refl)
    | inr other ↦ rw (other, lookup) (rw other (lookup-insert k v m))
  ]

  pub lookup-insert_other :
      (k j : Text) (v : V) (m : Map V) → text_eq j k ≡ false → lookup k (insert j v m) ≡ lookup k m
  unfolding lookup insert
  lookup-insert_other k j v [] h = rw h refl
  lookup-insert_other k j v ((i, w) ∷ m) h = elim (Bool-cases (text_eq i j)) [
    | inl same ↦
        let apart : text_eq i k ≡ false = ap (λ t. text_eq t k) (text_eq→eq i j same) ∙ h in
        rw (same, lookup) (rw apart refl)
    | inr other ↦
        rw (other, lookup)
          (elim (Bool-cases (text_eq i k)) [
            | inl here ↦ rw here refl
            | inr there ↦ rw there (lookup-insert_other k j v m h)
          ])
  ]

pub text_eq_apart : (x y : Text) → text_eq x y ≡ false → text_eq y x ≡ false
text_eq_apart x y h = elim (Bool-cases (text_eq y x)) [
  | inr apart ↦ apart
  | inl same ↦ absurd (
      true-ne_false
        (subst (λ (z : Text). text_eq x z ≡ true) (sym (text_eq→eq y x same)) (text_eq_refl x)) h)
]
