-- ===== src/Ctfe/Params.antt =====
-- trillian/ctfe/handlers.go: the parameters of requests that read the log.
use certificate_transparency.Prelude.{
  ℕ, ◌+◌, ◌-◌, ◌*◌, ◌^◌, Bool, true, false, ◌&&◌, ◌||◌, [], ◌∷◌, Option, none, some, ltb, leb, ◌==◌,
  if◌then◌else◌,
}
use certificate_transparency.Prelude.Int.{ℤ, pos, ltz, eqz}
use certificate_transparency.Prelude.Int64.{add64, sub64, lez, neg, rem}
use certificate_transparency.Prelude.Outcome.{Outcome, ok, err, panic, ◌>>=◌}
use certificate_transparency.Prelude.Text.{Text}

pub data ParamError : Type 0 where
  malformed missing negative not_a_range empty_tree out_of_tree : ParamError

abbrev pub Result {ℓ} : Type ℓ → Type ℓ
Result A = Outcome ParamError A

-- The decimal digits of a text, behind those that were read.
unfoldable pub parse_digits : ℕ → Text → Option ℕ
parse_digits n [] = some n
parse_digits n (c ∷ cs) =
    let rest = parse_digits (n * 10 + (c - 48)) cs in if leb 48 c && leb c 57 then rest else none

abbrev pub parse_natural : Text → Option ℕ
parse_natural [] = none
parse_natural (c ∷ cs) = parse_digits 0 (c ∷ cs)

abbrev signed : Bool → ℕ → Option ℤ
signed minus n =
    if minus
    then if leb n (2 ^ 63) then some (neg (pos n)) else none
    else if ltb n (2 ^ 63)
    then some (pos n)
    else none

abbrev pub with_sign : Bool → Option ℕ → Option ℤ
with_sign minus none = none
with_sign minus (some n) = signed minus n

abbrev pub parsed : Option ℤ → Result ℤ
parsed none = err malformed
parsed (some i) = ok i

-- `strconv.ParseInt(s, 10, 64)`.
unfoldable pub parse_int : Text → Result ℤ
unfolding parse_digits
parse_int [] = err malformed
parse_int (c ∷ cs) = parsed (
    if c == 45
    then with_sign true (parse_natural cs)
    else with_sign false (parse_natural (if c == 43 then cs else c ∷ cs)))

-- The last step of `parseGetEntriesRange`, where `many` says that the range has as many entries as
-- it may have.
abbrev pub round_range : Bool → Bool → ℤ → ℤ → ℤ → Result (ℤ × ℤ)
round_range align_get_entries many max_range start end =
    if align_get_entries && many
    then if eqz max_range (pos 0)
      then panic
      else ok (start, sub64 end (rem (add64 end (pos 1)) max_range))
    else ok (start, end)

-- The step before it.
unfoldable pub cap_range : Bool → ℤ → ℤ → ℤ → Result (ℤ × ℤ)
cap_range align_get_entries max_range start end =
    let count = add64 (sub64 end start) (pos 1) in
    let end' = if ltz max_range count then sub64 (add64 start max_range) (pos 1) else end in
    round_range align_get_entries (lez max_range count) max_range start end'

-- `parseGetEntriesRange`, on the values of its two parameters.
unfoldable pub parse_get_entries_range : Bool → ℤ → Text → Text → Result (ℤ × ℤ)
unfolding parse_int cap_range
parse_get_entries_range align_get_entries max_range start_val end_val = do
  start ← parse_int start_val
  end ← parse_int end_val
  if ltz start (pos 0) || ltz end (pos 0)
      then err negative
      else if ltz end start
      then err not_a_range
      else cap_range align_get_entries max_range start end

-- `parseGetEntryAndProofParams`.
unfoldable pub parse_get_entry_and_proof_params : Text → Text → Result (ℤ × ℤ)
unfolding parse_int
parse_get_entry_and_proof_params leaf_index_val tree_size_val = do
  leaf_index ← parse_int leaf_index_val
  tree_size ← parse_int tree_size_val
  if lez tree_size (pos 0)
      then err empty_tree
      else if ltz leaf_index (pos 0)
      then err negative
      else if lez tree_size leaf_index
      then err out_of_tree
      else ok (leaf_index, tree_size)

abbrev pub is_empty : Text → Bool
is_empty [] = true
is_empty _ = false

-- `parseGetSTHConsistencyRange`.
unfoldable pub parse_get_sth_consistency_range : Text → Text → Result (ℤ × ℤ)
unfolding parse_int
parse_get_sth_consistency_range first_val second_val =
    if is_empty first_val then err missing else if is_empty second_val then err missing else (do
      first ← parse_int first_val
      second ← parse_int second_val
      if ltz first (pos 0) || ltz second (pos 0)
          then err negative
          else if ltz second first
          then err not_a_range
          else ok (first, second))
