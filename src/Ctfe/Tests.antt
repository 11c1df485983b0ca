-- ===== src/Ctfe/Tests.antt =====
-- trillian/ctfe: requests that read a small log, and the theorems on them.
use certificate_transparency.Prelude.{
  ℕ, ◌+◌, ◌-◌, ◌^◌, ◌≡◌, ◌≢◌, ◌≤◌, ◌<◌, ◌⊎◌, refl, ap, true, false, List, [], ◌∷◌, none, some,
  arith,
}
use certificate_transparency.Prelude.Int.{ℤ, pos}
use certificate_transparency.Prelude.Int64.{add64, sub64}
use certificate_transparency.Prelude.Outcome.{Outcome, ok, err}
use certificate_transparency.Prelude.Text.{codes}
use certificate_transparency.Ctfe.Params.{ParamError, negative, parse_int, parse_get_entries_range}
use certificate_transparency.Ctfe.Backend.{Rpc, LogLeaf, not_found, to_http_status}
use certificate_transparency.Ctfe.Leaves.{LeavesResponse, get_entries, marshal_get_entries_response}
use certificate_transparency.Ctfe.Bounds.{
  IsCapped, parse_get_entries_range-IsCapped, range_uncapped,
}
use certificate_transparency.Ctfe.Slices.{IsAnswered, IsSlice, get_entries-IsSlice}
use certificate_transparency.Ctfe.Modes.{get_entries-eq}
use mathlib.Core.List.Perm

-- The number of an int64 that is not negative.
number : Outcome ParamError ℤ → ℕ
number (ok (pos n)) = n
number _ = 0

not_biggest : parse_int (codes "9") ≢ ok (pos (2 ^ 63 - 1))
unfolding parse_int number
not_biggest = λ e. ground (arith, ap number e)

capped : parse_get_entries_range false (pos 3) (codes "4") (codes "9") ≡ ok (pos 4, pos 6)
unfolding parse_get_entries_range add64 sub64
capped = refl

aligned : parse_get_entries_range true (pos 3) (codes "4") (codes "9") ≡ ok (pos 4, pos 5)
unfolding parse_get_entries_range add64 sub64
aligned = refl

refused : parse_get_entries_range true (pos 3) (codes "+4") (codes "-9") ≡ err negative
unfolding parse_get_entries_range add64 sub64
refused = refl

parse_get_entries_range-IsCapped_example :
    ((e : ParamError) × (parse_get_entries_range true (pos 3) (codes "4") (codes "9") ≡ err e))
    ⊎ ((start : ℕ) × (end : ℕ) × (last : ℕ) × (parse_int (codes "4") ≡ ok (pos start))
        × (parse_int (codes "9") ≡ ok (pos end))
        × (start ≤ end)
        × (end + 1 < 2 ^ 63)
        × (parse_get_entries_range true (pos 3) (codes "4") (codes "9") ≡ ok (pos start, pos last))
        × IsCapped true 3 start end last)
parse_get_entries_range-IsCapped_example =
    parse_get_entries_range-IsCapped true 3 (codes "4") (codes "9") (omega arith) not_biggest

range_uncapped_example :
    parse_get_entries_range true (pos 1000) (codes "0") (codes "9223372036854775807")
    ≡ ok (pos 0, pos (2 ^ 63 - 1))
range_uncapped_example = range_uncapped true 1000

abbrev leaf : ℕ → LogLeaf
leaf i = record { leaf_index = pos i; leaf_value = i ∷ []; extra_data = [] }

abbrev in_order : List LogLeaf
in_order = leaf 4 ∷ leaf 5 ∷ []

abbrev reversed : List LogLeaf
reversed = leaf 5 ∷ leaf 4 ∷ []

abbrev by_range : ℤ → ℤ → Rpc LeavesResponse
by_range start count = ok (record { leaves = in_order; tree_size = some 9 })

abbrev by_index : List ℤ → Rpc LeavesResponse
by_index indices = ok (record { leaves = reversed; tree_size = some 9 })

abbrev no_tree : ℤ → ℤ → Rpc LeavesResponse
no_tree start count = err (record { mapped = none; code = some not_found })

-- The leaves are sorted by their index.
sorted :
    get_entries false true (pos 3) by_range by_index (codes "4") (codes "9")
    ≡ ok (marshal_get_entries_response in_order)
unfolding get_entries add64 sub64
sorted = refl

-- Leaves that do not start where the request does.
misplaced : get_entries false true (pos 3) by_range by_index (codes "3") (codes "9") ≡ err 500
unfolding get_entries add64 sub64
misplaced = refl

-- A start that is not in the tree.
outside : get_entries true true (pos 3) by_range by_index (codes "9") (codes "9") ≡ err 400
unfolding get_entries add64 sub64
outside = refl

mapped : get_entries true true (pos 3) no_tree by_index (codes "4") (codes "9") ≡ err 404
unfolding get_entries add64 sub64 to_http_status
mapped = refl

get_entries-IsSlice_example :
    (start : ℕ) × (end : ℕ) × (last : ℕ) × (leaves : List LogLeaf) × (parse_int (codes "4")
      ≡ ok (pos start))
    × (parse_int (codes "9") ≡ ok (pos end))
    × IsCapped true 3 start end last
    × IsSlice start last leaves
    × IsAnswered false by_range by_index start last leaves
    × (marshal_get_entries_response in_order ≡ marshal_get_entries_response leaves)
get_entries-IsSlice_example =
    get_entries-IsSlice false true 3 by_range by_index (codes "4") (codes "9")
      (marshal_get_entries_response in_order) (omega arith) not_biggest sorted

get_entries-eq_example :
    (get_entries true true (pos 3) by_range by_index (codes "4") (codes "9")
      ≡ ok (marshal_get_entries_response in_order))
    × (get_entries false true (pos 3) by_range by_index (codes "4") (codes "9")
        ≡ ok (marshal_get_entries_response in_order))
get_entries-eq_example =
    get_entries-eq true (pos 3) by_range by_index (codes "4") (codes "9") 4 5 9 reversed in_order
      aligned (omega arith) (omega arith) (omega arith) (omega arith)
      ((refl, (refl, tt)), omega arith) (Perm.swap (leaf 4) (leaf 5) []) refl refl
