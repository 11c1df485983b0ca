-- ===== src/Ctfe/Slices.antt =====
-- trillian/ctfe/handlers.go: what getEntries answers with.
use mathlib.Core.List.{Perm}
use certificate_transparency.Prelude.{
  ℕ, ◌+◌, ◌-◌, ◌%◌, ◌^◌, leb, ◌≡◌, ◌≢◌, ◌≤◌, ◌<◌, inl, inr, ap, subst, sym, ◌∙◌, Bool, true, false,
  List, Option, some, if◌then◌else◌, length, ltb→ge, arith,
}
use certificate_transparency.Prelude.Int.{ℤ, pos}
use certificate_transparency.Prelude.Int64.{add64, sub64, add64-pos, sub64-pos}
use certificate_transparency.Prelude.Outcome.{ok, >>=-eq-ok, ok_inj, err-ne_ok}
use certificate_transparency.Prelude.Text.{Text}
use certificate_transparency.Ctfe.Params.{parse_int, parse_get_entries_range}
use certificate_transparency.Ctfe.Bounds.{IsCapped, parse_get_entries_range-IsCapped}
use certificate_transparency.Ctfe.Backend.{Rpc, LogLeaf, from_rpc, or_status, or_missing}
use certificate_transparency.Ctfe.Calls.{from_rpc-eq-ok, or_missing-eq-ok}
use certificate_transparency.Ctfe.Sorted.{IsIndexed, sort_leaves-Perm}
use certificate_transparency.Ctfe.Leaves.{
  LeavesResponse, LeafEntry, sort_leaves, sort_leaf_range, indices_from, build_indices_for_range,
  leaves_by_range, leaves_by_index, marshal_get_entries_response, get_entries,
}
use certificate_transparency.Ctfe.Checked.{
  check_indices-IsIndexed, tested, kept, passed, not_panic, not_diverge, length-sort_leaves,
  count_lem,
}

-- The leaves of an answer that is passed on: they have consecutive indices from the start on, and
-- there are no more of them than are asked for.
abbrev pub IsSlice : ℕ → ℕ → List LogLeaf → Type 0
IsSlice start last ls = IsIndexed start ls × (length ls ≤ last + 1 - start)

-- The backend answered the request for this range with these leaves, and its tree has the start.
abbrev pub IsByRange : ℕ → ℕ → (ℤ → ℤ → Rpc LeavesResponse) → List LogLeaf → Type 0
IsByRange start last backend ls =
    (size : ℕ) × (start < size)
    × (backend (pos start) (pos (last + 1 - start))
        ≡ ok (record { leaves = ls; tree_size = some size }))

-- The backend answered the request for the indices of this range with these leaves, in some order,
-- and its tree has the start.
abbrev pub IsByIndex : ℕ → ℕ → (List ℤ → Rpc LeavesResponse) → List LogLeaf → Type 0
IsByIndex start last backend ls =
    (xs : List LogLeaf) × (size : ℕ) × (start < size)
    × (backend (indices_from (last + 1 - start) (pos start))
        ≡ ok (record { leaves = xs; tree_size = some size }))
    × Perm xs ls

module _ (start last : ℕ) (ordered : start ≤ last) (small : last + 1 < 2 ^ 63) where
  has_start : (size : ℕ) → leb size (start % 2 ^ 64) ≡ false → start < size
  has_start size h = ground arith

  -- What was built are the indices of the range.
  built_indices :
      (indices : List ℤ)
      → build_indices_for_range (pos start) (pos last) ≡ ok indices
      → indices ≡ indices_from (last + 1 - start) (pos start)
  unfolding build_indices_for_range
  built_indices indices h =
      let (room, h1) = not_panic _ _ indices (
        rw (sub64-pos last start ordered (omega arith), add64-pos (last - start) 1 (omega arith)) at
          h) in
      let (ends, h2) = not_diverge _ _ indices h1 in
      let count_same : (last - start + 1) % 2 ^ 64 ≡ last + 1 - start = omega arith in
      sym (ok_inj h2) ∙ ap (λ (n : ℕ). indices_from n (pos start)) count_same

  leaves_by_range-IsSlice :
      (backend : ℤ → ℤ → Rpc LeavesResponse) (ls : List LogLeaf)
      → leaves_by_range backend (pos start) (pos last) ≡ ok ls
      → IsSlice start last ls × IsByRange start last backend ls
  unfolding leaves_by_range
  leaves_by_range-IsSlice backend ls h =
      let count = sub64 (add64 (pos last) (pos 1)) (pos start) in
      let (rsp, answered, h1) = >>=-eq-ok (from_rpc (backend (pos start) count)) _ h in
      let (size, sized, h2) = >>=-eq-ok (or_missing 500 rsp.tree_size) _ h1 in
      let (in_tree, few, indexed, same) = tested _ _ _ (ok rsp.leaves) ls h2 in
      let bounded : length rsp.leaves ≤ last + 1 - start =
        ltb→ge _ _ (rw (count_lem start last ordered small) at few) in
      let is_size = or_missing-eq-ok 500 rsp.tree_size size sized in
      subst (λ (ks : List LogLeaf). IsSlice start last ks × IsByRange start last backend ks)
        (ok_inj same)
        (
          (check_indices-IsIndexed start rsp.leaves (omega (arith, bounded)) indexed, bounded),
          (
            size,
            has_start size in_tree,
            ap (backend (pos start)) (sym (count_lem start last ordered small))
                ∙ from_rpc-eq-ok (backend (pos start) count) rsp answered
                ∙ ap (λ (t : Option ℕ). ok (record { leaves = rsp.leaves; tree_size = t })) is_size,
          ),
        )

  sort_leaf_range-IsSlice :
      (xs ls : List LogLeaf)
      → sort_leaf_range xs (pos start) (pos last) ≡ some ls
      → IsSlice start last ls × Perm xs ls
  unfolding sort_leaf_range
  sort_leaf_range-IsSlice xs ls h =
      let (few, indexed, same) = kept _ _ (sort_leaves xs) ls h in
      let bounded : length (sort_leaves xs) ≤ last + 1 - start = omega (
        arith,
        length-sort_leaves xs,
        ltb→ge _ _ (rw (count_lem start last ordered small) at few),
      ) in
      subst (λ (ks : List LogLeaf). IsSlice start last ks × Perm xs ks) same
        (
          (
            check_indices-IsIndexed start (sort_leaves xs) (omega (arith, bounded)) indexed,
            bounded,
          ),
          sort_leaves-Perm xs,
        )

  leaves_by_index-IsSlice :
      (backend : List ℤ → Rpc LeavesResponse) (ls : List LogLeaf)
      → leaves_by_index backend (pos start) (pos last) ≡ ok ls
      → IsSlice start last ls × IsByIndex start last backend ls
  unfolding leaves_by_index
  leaves_by_index-IsSlice backend ls h =
      let (indices, built, h1) = >>=-eq-ok (build_indices_for_range (pos start) (pos last)) _ h in
      let (rsp, answered, h2) = >>=-eq-ok (from_rpc (backend indices)) _ h1 in
      let (size, sized, h3) = >>=-eq-ok (or_missing 500 rsp.tree_size) _ h2 in
      let (in_tree, found) = passed _ (sort_leaf_range rsp.leaves (pos start) (pos last)) ls h3 in
      let (slice, same) = sort_leaf_range-IsSlice rsp.leaves ls found in
      let is_size = or_missing-eq-ok 500 rsp.tree_size size sized in
      (
        slice,
        (
          rsp.leaves,
          size,
          has_start size in_tree,
          ap backend (sym (built_indices indices built))
              ∙ from_rpc-eq-ok (backend indices) rsp answered
              ∙ ap (λ (t : Option ℕ). ok (record { leaves = rsp.leaves; tree_size = t })) is_size,
          same,
        ),
      )

-- How the backend answered, in the way in which it was asked.
abbrev pub IsAnswered :
    Bool
    → (ℤ → ℤ → Rpc LeavesResponse)
    → (List ℤ → Rpc LeavesResponse)
    → ℕ
    → ℕ
    → List LogLeaf
    → Type 0
IsAnswered true by_range by_index start last ls = IsByRange start last by_range ls
IsAnswered false by_range by_index start last ls = IsByIndex start last by_index ls

-- What get-entries answers with, in both ways of asking the backend and whatever the backend
-- answers, where the bound on entries is positive and the end is not the biggest int64: the backend
-- was asked for the range that is left of the one requested, by its start and its number of indices
-- or by all of its indices in order, and has a tree with the start; the leaves that it gave have
-- consecutive indices from the start on, in the order in which they are answered, and there are as
-- many as are asked for, or fewer; and the entries are those of these leaves.
pub get_entries-IsSlice :
    (get_by_range align : Bool) (max_range : ℕ) (by_range : ℤ → ℤ → Rpc LeavesResponse)
    (by_index : List ℤ → Rpc LeavesResponse) (start_val end_val : Text) (entries : List LeafEntry)
    → 0 < max_range
    → parse_int end_val ≢ ok (pos (2 ^ 63 - 1))
    → get_entries get_by_range align (pos max_range) by_range by_index start_val end_val
      ≡ ok entries
    → (start : ℕ) × (end : ℕ) × (last : ℕ) × (leaves : List LogLeaf) × (parse_int start_val
        ≡ ok (pos start))
      × (parse_int end_val ≡ ok (pos end))
      × IsCapped align max_range start end last
      × IsSlice start last leaves
      × IsAnswered get_by_range by_range by_index start last leaves
      × (entries ≡ marshal_get_entries_response leaves)
unfolding get_entries
get_entries-IsSlice get_by_range align max_range by_range by_index start_val end_val entries
      positive not_top h =
    let (r, parsed, h1) =
      >>=-eq-ok (or_status 400 (parse_get_entries_range align (pos max_range) start_val end_val)) _
        h in
    elim (parse_get_entries_range-IsCapped align max_range start_val end_val positive not_top) [
      | inl (e, refused) ↦ absurd (err-ne_ok (rw refused at parsed))
      | inr (start, end, last, p, q, ordered, bound, is_r, capped) ↦
          let (leaves, got, h2) =
            >>=-eq-ok
              (if get_by_range
                then leaves_by_range by_range r.0 r.1
                else leaves_by_index by_index r.0 r.1)
              _ h1 in
          let same : r ≡ (pos start, pos last) = sym (ok_inj (rw is_r at parsed)) in
          let is_slice =
            slice get_by_range start last leaves capped.0 (omega (arith, capped.1))
              (rw same at got) in
          (start, end, last, leaves, p, q, capped, is_slice.0, is_slice.1, sym (ok_inj h2))
    ]
  where
    slice :
        (get_by_range : Bool) (start last : ℕ) (leaves : List LogLeaf)
        → start ≤ last
        → last + 1 < 2 ^ 63
        → (if get_by_range
            then leaves_by_range by_range (pos start) (pos last)
            else leaves_by_index by_index (pos start) (pos last))
          ≡ ok leaves
        → IsSlice start last leaves × IsAnswered get_by_range by_range by_index start last leaves
    slice true start last leaves ordered small h =
        leaves_by_range-IsSlice start last ordered small by_range leaves h
    slice false start last leaves ordered small h =
        leaves_by_index-IsSlice start last ordered small by_index leaves h
