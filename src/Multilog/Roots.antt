-- ===== src/Multilog/Roots.antt =====
-- client/multilog.go: the roots that a temporal log accepts.
use certificate_transparency.Prelude.{
  ◌≡◌, refl, ap, subst, sym, ◌∙◌, Bool, true, false, ◌||◌, List, [], ◌∷◌, ◌++◌, map, Option, none,
  some, some_inj, Bool-cases, inl, inr, ℕ, arith,
}
use certificate_transparency.Prelude.Text.{Text, text_eq}
use certificate_transparency.Submission.State.{has_text}
use certificate_transparency.Submission.Needs.{IsDistinct}
use certificate_transparency.Submission.Keys.{text_eq→eq, text_eq_apart}
use certificate_transparency.Multilog.Calls.{
  Roots, add_root, add_roots, union_roots, get_accepted_roots,
}

-- The hash is that of one of the roots in the results.
abbrev pub is_offered : (List ℕ → List ℕ) → Text → List (Option (List (List ℕ))) → Bool
is_offered sum256 h [] = false
is_offered sum256 h (none ∷ results) = is_offered sum256 h results
is_offered sum256 h (some roots ∷ results) =
    has_text h (map sum256 roots) || is_offered sum256 h results

or_false : (a b : Bool) → a || b ≡ false → (a ≡ false) × (b ≡ false)
or_false a b e = ground arith

has_text-append :
    (h : Text) (xs ys : List Text) → has_text h (xs ++ ys) ≡ has_text h xs || has_text h ys
unfolding has_text
has_text-append h [] ys = refl
has_text-append h (x ∷ xs) ys = ground (arith, has_text-append h xs ys)

map-snoc :
    (f : List ℕ → Text) (xs : List (List ℕ)) (x : List ℕ)
    → map f (xs ++ (x ∷ [])) ≡ map f xs ++ (f x ∷ [])
map-snoc f [] x = refl
map-snoc f (y ∷ ys) x = ap (◌∷◌ (f y)) (map-snoc f ys x)

snoc-IsDistinct :
    (xs : List Text) (x : Text)
    → IsDistinct xs
    → has_text x xs ≡ false
    → IsDistinct (xs ++ (x ∷ []))
unfolding has_text
snoc-IsDistinct [] x h new = (refl, tt)
snoc-IsDistinct (y ∷ ys) x h new =
    let (first, rest) = or_false (text_eq y x) (has_text x ys) new in
    (
      has_text-append y ys (x ∷ []) ∙ rw (h.0, text_eq_apart y x first) refl,
      snoc-IsDistinct ys x h.1 rest,
    )

module _ (sum256 : List ℕ → List ℕ) where
  abbrev hashes : Roots → List Text
  hashes rs = map sum256 rs.all

  -- The set of hashes that were seen is that of the roots that were kept, and none of them is kept
  -- twice.
  record IsKept (rs : Roots) : Type 0 where
    same : (h : Text) → has_text h rs.seen ≡ has_text h (hashes rs)
    distinct : IsDistinct (hashes rs)

  add_root_lem :
      (root : List ℕ) (rs : Roots)
      → IsKept rs
      → IsKept (add_root sum256 root rs)
        × ((h : Text)
            → has_text h (hashes (add_root sum256 root rs))
              ≡ text_eq (sum256 root) h || has_text h (hashes rs))
  unfolding add_root has_text
  add_root_lem root rs k = elim (Bool-cases (has_text (sum256 root) rs.seen)) [
    | inl old ↦ rw old (k, λ h. known h (text_eq (sum256 root) h) refl old)
    | inr new ↦
        let snoc : (h : Text)
            → has_text h (map sum256 (rs.all ++ (root ∷ [])))
              ≡ text_eq (sum256 root) h || has_text h (hashes rs) =
          λ h.
            ap (has_text h) (map-snoc sum256 rs.all root)
            ∙ has_text-append h (hashes rs) (sum256 root ∷ [])
            ∙ swap (has_text h (hashes rs)) (text_eq (sum256 root) h) in
        rw new (
          record {
            same = λ h. ap (λ (b : Bool). text_eq (sum256 root) h || b) (k.same h) ∙ sym (snoc h);
            distinct = subst IsDistinct (sym (map-snoc sum256 rs.all root)) (
                snoc-IsDistinct (hashes rs) (sum256 root) k.distinct
                  (sym (k.same (sum256 root)) ∙ new));
          },
          snoc,
        )
  ]
    where
      swap : (a b : Bool) → a || (b || false) ≡ b || a
      swap a b = ground arith

      known :
          (h : Text) (b : Bool)
          → text_eq (sum256 root) h ≡ b
          → has_text (sum256 root) rs.seen ≡ true
          → has_text h (hashes rs) ≡ b || has_text h (hashes rs)
      known h false e old = refl
      known h true e old =
          sym (k.same h)
          ∙ subst (λ (z : Text). has_text z rs.seen ≡ true) (text_eq→eq (sum256 root) h e) old

  add_roots_lem :
      (roots : List (List ℕ)) (rs : Roots)
      → IsKept rs
      → IsKept (add_roots sum256 roots rs)
        × ((h : Text)
            → has_text h (hashes (add_roots sum256 roots rs))
              ≡ has_text h (map sum256 roots) || has_text h (hashes rs))
  unfolding add_roots has_text
  add_roots_lem [] rs k = (k, λ h. refl)
  add_roots_lem (root ∷ roots) rs k =
      let (k1, one) = add_root_lem root rs k in
      let (k2, more) = add_roots_lem roots (add_root sum256 root rs) k1 in
      (
        k2,
        λ h.
            more h
            ∙ rearrange (has_text h (map sum256 roots)) (text_eq (sum256 root) h)
                (has_text h (hashes rs)) _ (one h),
      )
    where
      rearrange : (a b c d : Bool) → d ≡ b || c → a || d ≡ (b || a) || c
      rearrange a b c d e = ground (arith, e)

  union_roots_lem :
      (results : List (Option (List (List ℕ)))) (rs : Roots) (all : List (List ℕ))
      → IsKept rs
      → union_roots sum256 results rs ≡ some all
      → IsDistinct (map sum256 all)
        × ((h : Text)
            → has_text h (map sum256 all) ≡ is_offered sum256 h results || has_text h (hashes rs))
  unfolding union_roots
  union_roots_lem [] rs all k e = rw (sym (some_inj e)) (k.distinct, λ h. refl)
  union_roots_lem (none ∷ results) rs all k e = cc
  union_roots_lem (some roots ∷ results) rs all k e =
      let (k1, one) = add_roots_lem roots rs k in
      let (distinct, more) = union_roots_lem results (add_roots sum256 roots rs) all k1 e in
      (
        distinct,
        λ h.
            more h
            ∙ rearrange (is_offered sum256 h results) (has_text h (map sum256 roots))
                (has_text h (hashes rs)) _ (one h),
      )
    where
      rearrange : (a b c d : Bool) → d ≡ b || c → a || d ≡ (b || a) || c
      rearrange a b c d e = ground (arith, e)

  -- The roots that a temporal log accepts, where all its logs answer: by their hashes, none is there
  -- twice, and they are those that one of the logs accepts, so that the order in which the logs
  -- answer does not matter.
  pub get_accepted_roots-IsUnion :
      (results : List (Option (List (List ℕ)))) (all : List (List ℕ))
      → get_accepted_roots sum256 results ≡ some all
      → IsDistinct (map sum256 all)
        × ((h : Text) → has_text h (map sum256 all) ≡ is_offered sum256 h results)
  unfolding get_accepted_roots has_text
  get_accepted_roots-IsUnion results all e =
      let (distinct, same) =
        union_roots_lem results (record { seen = []; all = [] }) all
          (record { same = λ h. refl; distinct = tt }) e in
      (distinct, λ h. same h ∙ or_false_right (is_offered sum256 h results))
    where
      or_false_right : (a : Bool) → a || false ≡ a
      or_false_right a = ground arith
