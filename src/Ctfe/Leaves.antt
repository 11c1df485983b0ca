-- ===== src/Ctfe/Leaves.antt =====
-- trillian/ctfe/handlers.go: getEntries.
use certificate_transparency.Prelude.{
  ℕ, zero, suc, ◌-◌, ◌^◌, ◌||◌, Bool, true, false, List, [], ◌∷◌, Option, none, some, leb, length,
  if◌then◌else◌,
}
use certificate_transparency.Prelude.Int.{ℤ, pos, ltz, eqz}
use certificate_transparency.Prelude.Int64.{add64, sub64, uint64_of}
use certificate_transparency.Prelude.Outcome.{ok, err, panic, diverge, ◌>>=◌}
use certificate_transparency.Prelude.Text.{Text}
use certificate_transparency.Ctfe.Params.{parse_get_entries_range}
use certificate_transparency.Ctfe.Backend.{Handled, Rpc, LogLeaf, from_rpc, or_status, or_missing}

-- The answer to both requests for leaves: the size of the tree is missing where the root is not
-- unmarshalled.
pub record LeavesResponse : Type 0 where
  pub leaves : List LogLeaf
  pub tree_size : Option ℕ

-- An entry of the answer to get-entries.
pub record LeafEntry : Type 0 where
  pub leaf_input : List ℕ
  pub extra_data : List ℕ

-- The test of `sort.Sort` and its result: `byLeafIndex`.
unfoldable pub insert_leaf : LogLeaf → List LogLeaf → List LogLeaf
insert_leaf x [] = x ∷ []
insert_leaf x (y ∷ ys) =
    let rest = insert_leaf x ys in if ltz y.leaf_index x.leaf_index then y ∷ rest else x ∷ y ∷ ys

unfoldable pub sort_leaves : List LogLeaf → List LogLeaf
unfolding insert_leaf
sort_leaves [] = []
sort_leaves (x ∷ xs) = insert_leaf x (sort_leaves xs)

-- The loop over the leaves, which are to have consecutive indices.
unfoldable pub check_indices : ℤ → List LogLeaf → Bool
check_indices index [] = true
check_indices index (l ∷ ls) =
    let rest = check_indices (add64 index (pos 1)) ls in
    if eqz l.leaf_index index then rest else false

-- `sortLeafRange`: the sorted leaves, if they are right.
unfoldable pub sort_leaf_range : List LogLeaf → ℤ → ℤ → Option (List LogLeaf)
unfolding sort_leaves check_indices
sort_leaf_range leaves start end =
    if ltz (sub64 (add64 end (pos 1)) start) (pos (length leaves))
    then none
    else (let sorted = sort_leaves leaves in
        if check_indices start sorted then some sorted else none)

-- The indices from one on, so many.
unfoldable pub indices_from : ℕ → ℤ → List ℤ
indices_from zero index = []
indices_from (suc n) index = index ∷ indices_from n (add64 index (pos 1))

-- The most numbers of 64 bits that `make` has room for, where addresses have 48 bits.
abbrev pub max_capacity : ℕ
max_capacity = 2 ^ 45

-- `buildIndicesForRange`: `make` panics on a capacity that is negative or too big, and the loop up to
-- the biggest int64 does not end.
unfoldable pub build_indices_for_range : ℤ → ℤ → Handled (List ℤ)
unfolding indices_from
build_indices_for_range start end =
    let count = add64 (sub64 end start) (pos 1) in
    if ltz count (pos 0) || ltz (pos max_capacity) count
    then panic
    else if eqz end (pos (2 ^ 63 - 1))
    then diverge
    else ok (indices_from (uint64_of count) start)

-- The two ways in which getEntries asks the backend.
unfoldable pub leaves_by_range : (ℤ → ℤ → Rpc LeavesResponse) → ℤ → ℤ → Handled (List LogLeaf)
unfolding check_indices
leaves_by_range get_leaves start end =
    let count = sub64 (add64 end (pos 1)) start in
    (do
      rsp ← from_rpc (get_leaves start count)
      size ← or_missing 500 rsp.tree_size
      if leb size (uint64_of start)
          then err 400
          else if ltz count (pos (length rsp.leaves))
          then err 500
          else if check_indices start rsp.leaves
          then ok rsp.leaves
          else err 500)

unfoldable pub leaves_by_index : (List ℤ → Rpc LeavesResponse) → ℤ → ℤ → Handled (List LogLeaf)
unfolding build_indices_for_range sort_leaf_range
leaves_by_index get_leaves start end = do
  indices ← build_indices_for_range start end
  rsp ← from_rpc (get_leaves indices)
  size ← or_missing 500 rsp.tree_size
  if leb size (uint64_of start)
      then err 400
      else or_missing 500 (sort_leaf_range rsp.leaves start end)

-- The entries of `marshalGetEntriesResponse`, which logs leaves that are not deserialized and
-- returns them all the same.
abbrev pub entry_of : LogLeaf → LeafEntry
entry_of l = record { leaf_input = l.leaf_value; extra_data = l.extra_data }

unfoldable pub marshal_get_entries_response : List LogLeaf → List LeafEntry
marshal_get_entries_response [] = []
marshal_get_entries_response (l ∷ ls) = entry_of l ∷ marshal_get_entries_response ls

-- `getEntries`, with its flags and the two calls of the backend.
unfoldable pub get_entries :
    Bool
    → Bool
    → ℤ
    → (ℤ → ℤ → Rpc LeavesResponse)
    → (List ℤ → Rpc LeavesResponse)
    → Text
    → Text
    → Handled (List LeafEntry)
unfolding parse_get_entries_range leaves_by_range leaves_by_index marshal_get_entries_response
get_entries get_by_range align_get_entries max_range by_range by_index start_val end_val = do
  r ← or_status 400 (parse_get_entries_range align_get_entries max_range start_val end_val)
  leaves ←
      if get_by_range then leaves_by_range by_range r.0 r.1 else leaves_by_index by_index r.0 r.1
  ok (marshal_get_entries_response leaves)
