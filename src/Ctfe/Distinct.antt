-- ===== src/Ctfe/Distinct.antt =====
-- trillian/ctfe/config.go: texts and numbers that were found to be new, one after the other, are
-- distinct.
use certificate_transparency.Prelude.{
  ◌≡◌, inl, inr, refl, subst, sym, ◌∙◌, Bool, true, false, ◌||◌, List, [], ◌∷◌, Bool-cases,
  true-ne_false, arith,
}
use certificate_transparency.Prelude.Int.{ℤ, eqz, eqz→eq, eqz_refl}
use certificate_transparency.Prelude.Text.{Text, text_eq}
use certificate_transparency.Submission.State.{has_text}
use certificate_transparency.Submission.Keys.{text_eq_apart}
use certificate_transparency.Ctfe.MultiConfig.{has_id}

-- Each element is not among those before it and not among the given ones.
module _ {A : Type 0} (has : A → List A → Bool) where
  abbrev pub IsNew : List A → List A → Type 0
  IsNew before [] = Unit {0}
  IsNew before (x ∷ xs) = (has x before ≡ false) × IsNew (x ∷ before) xs

  -- Each element is not among those after it.
  abbrev pub IsOnce : List A → Type 0
  IsOnce [] = Unit {0}
  IsOnce (x ∷ xs) = (has x xs ≡ false) × IsOnce xs

or_false : (a b : Bool) → a || b ≡ false → (a ≡ false) × (b ≡ false)
or_false a b e = ground arith

module _ {A : Type 0} (has : A → List A → Bool) (eq : A → A → Bool)
    (has_nil : (x : A) → has x [] ≡ false)
    (has_cons : (x y : A) (ys : List A) → has x (y ∷ ys) ≡ eq y x || has x ys)
    (apart : (x y : A) → eq x y ≡ false → eq y x ≡ false) where
  new_apart :
      (x : A) (before xs : List A)
      → IsNew has before xs
      → ((y : A) → has y before ≡ false → eq x y ≡ false)
      → has x xs ≡ false
  new_apart x before [] new old = has_nil x
  new_apart x before (y ∷ ys) (fresh, new) old =
      has_cons x y ys
      ∙ rw
          (
            apart x y (old y fresh),
            new_apart x (y ∷ before) ys new (λ z absent.
                old z (or_false (eq y z) (has z before) (sym (has_cons z y before) ∙ absent)).1),
          )
          refl

  IsNew-IsOnce : (before xs : List A) → IsNew has before xs → IsOnce has xs
  IsNew-IsOnce before [] new = tt
  IsNew-IsOnce before (x ∷ xs) (fresh, new) = (
    new_apart x (x ∷ before) xs new
        (λ y absent. (or_false (eq x y) (has y before) (sym (has_cons y x before) ∙ absent)).0),
    IsNew-IsOnce (x ∷ before) xs new,
  )

pub texts-IsOnce : (xs : List Text) → IsNew has_text [] xs → IsOnce has_text xs
unfolding has_text
texts-IsOnce xs new =
    IsNew-IsOnce has_text text_eq (λ x. refl) (λ x y ys. refl) text_eq_apart [] xs new

eqz_apart : (a b : ℤ) → eqz a b ≡ false → eqz b a ≡ false
eqz_apart a b h = elim (Bool-cases (eqz b a)) [
  | inr other ↦ other
  | inl same ↦
      absurd
        (true-ne_false (subst (λ (c : ℤ). eqz a c ≡ true) (sym (eqz→eq b a same)) (eqz_refl a)) h)
]

pub ids-IsOnce : (xs : List ℤ) → IsNew has_id [] xs → IsOnce has_id xs
unfolding has_id
ids-IsOnce xs new = IsNew-IsOnce has_id eqz (λ x. refl) (λ x y ys. refl) eqz_apart [] xs new
