-- ===== src/Ctfe/Sorted.antt =====
-- trillian/ctfe/handlers.go: sortLeafRange puts the leaves in the order of their indices.
use mathlib.Core.List.Perm
use mathlib.Core.List.{Perm, Mem, not-mem-nil, mem-cons_self, eq-or-mem_of_mem-cons}
use mathlib.Core.Logic.Or
use mathlib.Core.Path.{ap₂}
use certificate_transparency.Prelude.{
  ℕ, ◌+◌, ◌≡◌, refl, ap, subst, sym, ◌∙◌, inl, inr, Bool, true, false, List, [], ◌∷◌, Bool-cases,
  true-ne_false, arith,
}
use certificate_transparency.Prelude.Int.{ℤ, pos, negsuc, ltz, ltz_irrefl, ltz_asym, not_ltz_trans}
use certificate_transparency.Ctfe.Backend.{LogLeaf}
use certificate_transparency.Ctfe.Leaves.{insert_leaf, sort_leaves}

-- The leaves have the indices from one on, in order.
abbrev pub IsIndexed : ℕ → List LogLeaf → Type 0
IsIndexed index [] = Unit {0}
IsIndexed index (l ∷ ls) = (l.leaf_index ≡ pos index) × IsIndexed (index + 1) ls

insert_leaf-Perm : (x : LogLeaf) (ys : List LogLeaf) → Perm (x ∷ ys) (insert_leaf x ys)
unfolding insert_leaf
insert_leaf-Perm x [] = Perm.refl (x ∷ [])
insert_leaf-Perm x (y ∷ ys) = elim (Bool-cases (ltz y.leaf_index x.leaf_index)) [
  | inl less ↦ rw (less) (Perm.trans (Perm.swap y x ys) (Perm.cons y (insert_leaf-Perm x ys)))
  | inr more ↦ rw more (Perm.refl (x ∷ y ∷ ys))
]

pub sort_leaves-Perm : (xs : List LogLeaf) → Perm xs (sort_leaves xs)
unfolding sort_leaves
sort_leaves-Perm [] = Perm.nil
sort_leaves-Perm (x ∷ xs) =
    Perm.trans (Perm.cons x (sort_leaves-Perm xs)) (insert_leaf-Perm x (sort_leaves xs))

LogLeaf_set : IsSet LogLeaf
LogLeaf_set = hlevel

-- No leaf stands behind one with a bigger index.
abbrev IsSorted : List LogLeaf → Type 0
IsSorted [] = Unit {0}
IsSorted (x ∷ xs) = ((y : LogLeaf) → Mem y xs → ltz y.leaf_index x.leaf_index ≡ false) × IsSorted xs

antisym : (a : ℤ) (n : ℕ) → ltz a (pos n) ≡ false → ltz (pos n) a ≡ false → a ≡ pos n
antisym (pos m) n low high = ap pos (ground arith)
antisym (negsuc m) n low high = cc

-- What holds of a leaf and of all of the others holds of all.
mem-cons_case :
    (P : LogLeaf → Bool) (x y : LogLeaf) (xs : List LogLeaf)
    → Mem y (x ∷ xs)
    → P x ≡ false
    → (Mem y xs → P y ≡ false)
    → P y ≡ false
mem-cons_case P x y xs m first rest =
    Or.elim (hlevel) (eq-or-mem_of_mem-cons m) (λ e. ap P e ∙ first) rest

insert_leaf-IsSorted : (x : LogLeaf) (ys : List LogLeaf) → IsSorted ys → IsSorted (insert_leaf x ys)
unfolding insert_leaf
insert_leaf-IsSorted x [] s = ((λ y m. absurd (not-mem-nil m)), tt)
insert_leaf-IsSorted x (y ∷ ys) (first, rest) = elim (Bool-cases (ltz y.leaf_index x.leaf_index)) [
  | inl less ↦ rw less (
    (λ z m.
        mem-cons_case (λ l. ltz l.leaf_index y.leaf_index) x z ys
          ((Perm.mem_iff (insert_leaf-Perm x ys)).1 m) (ltz_asym y.leaf_index x.leaf_index less)
          (first z)),
    insert_leaf-IsSorted x ys rest,
  )
  | inr more ↦ rw more (
    (λ z m.
        mem-cons_case (λ l. ltz l.leaf_index x.leaf_index) y z ys m more
          (λ n. not_ltz_trans x.leaf_index y.leaf_index z.leaf_index more (first z n))),
    (first, rest),
  )
]

sort_leaves-IsSorted : (xs : List LogLeaf) → IsSorted (sort_leaves xs)
unfolding sort_leaves
sort_leaves-IsSorted [] = tt
sort_leaves-IsSorted (x ∷ xs) = insert_leaf-IsSorted x (sort_leaves xs) (sort_leaves-IsSorted xs)

indexed_above :
    (n : ℕ) (ys : List LogLeaf) (x : LogLeaf)
    → IsIndexed n ys
    → Mem x ys
    → ltz x.leaf_index (pos n) ≡ false
indexed_above n [] x h m = absurd (not-mem-nil m)
indexed_above n (y ∷ ys) x (here, rest) m =
    mem-cons_case (λ l. ltz l.leaf_index (pos n)) y x ys m (rw here (ltz_irrefl (pos n)))
      (λ k.
        not_ltz_trans (pos n) (pos (n + 1)) x.leaf_index (step n)
          (indexed_above (n + 1) ys x rest k))
  where
    step : (n : ℕ) → ltz (pos (n + 1)) (pos n) ≡ false
    step n = ground arith

-- The first leaf of a sorted list is the first one of the same leaves where they have consecutive
-- indices.
first_unique :
    (n : ℕ) (x y : LogLeaf) (xs ys : List LogLeaf)
    → IsSorted (x ∷ xs)
    → IsIndexed n (y ∷ ys)
    → Perm (x ∷ xs) (y ∷ ys)
    → x ≡ y
first_unique n x y xs ys (low, rest) (here, more) p =
    Or.elim (LogLeaf_set x y) (eq-or-mem_of_mem-cons x_in) (λ e. e)
      (λ m. absurd (
        true-ne_false (subst (λ (i : ℤ). ltz i (pos (n + 1)) ≡ true) (sym x_index) (step n))
          (indexed_above (n + 1) ys x more m)))
  where
    x_in : Mem x (y ∷ ys)
    x_in = (Perm.mem_iff p).0 mem-cons_self

    above : ltz x.leaf_index (pos n) ≡ false
    above = indexed_above n (y ∷ ys) x (here, more) x_in

    below : ltz y.leaf_index x.leaf_index ≡ false
    below =
        mem-cons_case (λ l. ltz l.leaf_index x.leaf_index) x y xs ((Perm.mem_iff p).1 mem-cons_self)
          (ltz_irrefl x.leaf_index) (low y)

    x_index : x.leaf_index ≡ pos n
    x_index =
        antisym x.leaf_index n above (subst (λ (i : ℤ). ltz i x.leaf_index ≡ false) here below)

    step : (n : ℕ) → ltz (pos n) (pos (n + 1)) ≡ true
    step n = ground arith

sorted_unique : (n : ℕ) (xs ys : List LogLeaf) → IsSorted xs → IsIndexed n ys → Perm xs ys → xs ≡ ys
sorted_unique n [] [] s h p = refl
sorted_unique n [] (y ∷ ys) s h p = Perm.nil-eq p
sorted_unique n (x ∷ xs) [] s h p = Perm.eq-nil p
sorted_unique n (x ∷ xs) (y ∷ ys) s h p =
    let e = first_unique n x y xs ys s h p in
    let q = Perm.cons_inv (subst (λ (z : LogLeaf). Perm (z ∷ xs) (y ∷ ys)) e p) in
    ap₂ ◌∷◌ e (sorted_unique (n + 1) xs ys s.1 h.1 q)

-- Leaves in any order are put into the order of their indices, where these are consecutive.
pub sort_leaves-eq :
    (n : ℕ) (xs ys : List LogLeaf) → IsIndexed n ys → Perm xs ys → sort_leaves xs ≡ ys
sort_leaves-eq n xs ys h p =
    sorted_unique n (sort_leaves xs) ys (sort_leaves-IsSorted xs) h
      (Perm.trans (Perm.symm (sort_leaves-Perm xs)) p)
