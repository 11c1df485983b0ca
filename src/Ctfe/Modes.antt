-- ===== src/Ctfe/Modes.antt =====
-- trillian/ctfe/handlers.go: the two ways in which getEntries asks the backend agree.
use mathlib.Core.List.{Perm}
use certificate_transparency.Prelude.{
  ℕ, ◌+◌, ◌-◌, ◌%◌, ◌^◌, ◌≡◌, ◌≤◌, ◌<◌, refl, ap, Bool, true, false, List, [], ◌∷◌, some, length,
  leb, ge→ltb, ◌==◌, arith,
}
use certificate_transparency.Prelude.Int.{ℤ, pos, eqz_refl}
use certificate_transparency.Prelude.Int64.{add64-pos, sub64-pos}
use certificate_transparency.Prelude.Outcome.{ok}
use certificate_transparency.Prelude.Text.{Text}
use certificate_transparency.Ctfe.Params.{parse_get_entries_range}
use certificate_transparency.Ctfe.Backend.{Rpc, LogLeaf}
use certificate_transparency.Ctfe.Leaves.{
  LeavesResponse, max_capacity, check_indices, sort_leaf_range, indices_from,
  build_indices_for_range, leaves_by_range, leaves_by_index, marshal_get_entries_response,
  get_entries,
}
use certificate_transparency.Ctfe.Sorted.{IsIndexed, sort_leaves-eq}
use certificate_transparency.Ctfe.Checked.{count_lem, length-sort_leaves}
use certificate_transparency.Ctfe.Slices.{IsSlice}

-- Leaves with consecutive indices pass the check.
check_indices-true :
    (index : ℕ) (ls : List LogLeaf)
    → index + length ls < 2 ^ 63
    → IsIndexed index ls
    → check_indices (pos index) ls ≡ true
unfolding check_indices
check_indices-true index [] small h = refl
check_indices-true index (l ∷ ls) small (here, rest) =
    rw (here, eqz_refl (pos index), add64-pos index 1 (omega arith))
      (check_indices-true (index + 1) ls (omega arith) rest)

below_top : (last : ℕ) → last + 1 < 2 ^ 63 → (last == 2 ^ 63 - 1) ≡ false
below_top last small = ground arith

build_indices-ok :
    (start last : ℕ)
    → start ≤ last
    → last + 1 < 2 ^ 63
    → last + 1 ≤ start + max_capacity
    → build_indices_for_range (pos start) (pos last)
      ≡ ok (indices_from (last + 1 - start) (pos start))
unfolding build_indices_for_range
build_indices-ok start last ordered small room =
    rw
      (
        sub64-pos last start ordered (omega arith),
        add64-pos (last - start) 1 (omega arith),
        ge→ltb (last - start + 1) 0 (omega arith),
        ge→ltb max_capacity (last - start + 1) (omega arith),
        below_top last small,
      )
      (ap (λ (n : ℕ). ok (indices_from n (pos start))) (omega arith))

in_tree : (start size : ℕ) → start < size → start < 2 ^ 63 → leb size (start % 2 ^ 64) ≡ false
in_tree start size sized small = ground arith

module _ (start last size : ℕ) (ordered : start ≤ last) (small : last + 1 < 2 ^ 63)
    (sized : start < size) (xs ys : List LogLeaf) (slice : IsSlice start last ys) where
  leaves_by_range-ok :
      (backend : ℤ → ℤ → Rpc LeavesResponse)
      → backend (pos start) (pos (last + 1 - start))
        ≡ ok (record { leaves = ys; tree_size = some size })
      → leaves_by_range backend (pos start) (pos last) ≡ ok ys
  unfolding leaves_by_range
  leaves_by_range-ok backend answer =
      rw (count_lem start last ordered small, answer)
        (rw
          (
            in_tree start size sized (omega arith),
            ge→ltb (last + 1 - start) (length ys) slice.1,
            check_indices-true start ys (omega (arith, slice.1)) slice.0,
          )
          refl)

  leaves_by_index-ok :
      (backend : List ℤ → Rpc LeavesResponse)
      → backend (indices_from (last + 1 - start) (pos start))
        ≡ ok (record { leaves = xs; tree_size = some size })
      → Perm xs ys
      → last + 1 ≤ start + max_capacity
      → leaves_by_index backend (pos start) (pos last) ≡ ok ys
  unfolding leaves_by_index sort_leaf_range
  leaves_by_index-ok backend answer same room =
      let sorted = sort_leaves-eq start xs ys slice.0 same in
      let long : length xs ≤ last + 1 - start =
        omega (arith, length-sort_leaves xs, ap length sorted, slice.1) in
      rw (build_indices-ok start last ordered small room, answer)
        (rw
          (
            in_tree start size sized (omega arith),
            count_lem start last ordered small,
            ge→ltb (last + 1 - start) (length xs) long,
            sorted,
            check_indices-true start ys (omega (arith, slice.1)) slice.0,
          )
          refl)

-- The two ways in which get-entries asks the backend agree: where the backend answers the request for
-- the range that is left with leaves of consecutive indices from its start on, no more than are asked
-- for, and the request for the same indices with the same leaves in any order, its tree has the start,
-- and there is room for the indices, get-entries answers the same by both, and with these leaves.
pub get_entries-eq :
    (align : Bool) (max_range : ℤ) (by_range : ℤ → ℤ → Rpc LeavesResponse)
    (by_index : List ℤ → Rpc LeavesResponse) (start_val end_val : Text) (start last size : ℕ)
    (xs ys : List LogLeaf)
    → parse_get_entries_range align max_range start_val end_val ≡ ok (pos start, pos last)
    → start ≤ last
    → last + 1 < 2 ^ 63
    → last + 1 ≤ start + max_capacity
    → start < size
    → IsSlice start last ys
    → Perm xs ys
    → by_range (pos start) (pos (last + 1 - start))
      ≡ ok (record { leaves = ys; tree_size = some size })
    → by_index (indices_from (last + 1 - start) (pos start))
      ≡ ok (record { leaves = xs; tree_size = some size })
    → (get_entries true align max_range by_range by_index start_val end_val
        ≡ ok (marshal_get_entries_response ys))
      × (get_entries false align max_range by_range by_index start_val end_val
          ≡ ok (marshal_get_entries_response ys))
unfolding get_entries
get_entries-eq align max_range by_range by_index start_val end_val start last size xs ys parsed
      ordered small room sized slice same range index =
    (
      rw parsed (
          rw (leaves_by_range-ok start last size ordered small sized xs ys slice by_range range)
            refl),
      rw parsed (
          rw
            (leaves_by_index-ok start last size ordered small sized xs ys slice by_index index same
              room)
            refl),
    )
