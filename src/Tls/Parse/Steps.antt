-- ===== src/Tls/Parse/Steps.antt =====
-- tls/tls.go: the steps that `parseField` is made of: numbers of a given width, lengths, selectors,
-- and the loop over the elements of a slice.
use certificate_transparency.Prelude.{
  ℕ, zero, suc, ◌+◌, Bool, true, false, not, Option, none, some, List, [], ◌∷◌, ltb, ◌==◌,
  if◌then◌else◌, length, take,
}
use certificate_transparency.Prelude.Text.{Text, Map, lookup, insert}
use certificate_transparency.Prelude.Outcome.{ok, err, panic, diverge, ◌>>=◌, ◌>>◌}
use certificate_transparency.Tls.Tag.{
  Message, structural_error, syntax_error, Result, FieldInfo, field_name, is_empty, shl64, check,
  no_size_information, truncated_integer, unsupported_type, selector_not_seen, choice_not_pointer,
  duplicate_selector, unhandled_selector,
}
use certificate_transparency.Tls.Types.{GoType, uint64, enum, Val}

-- `result = (result << 8) | uint64(data[i])`; the low byte of the shifted number is free.
unfoldable pub var_value : ℕ → List ℕ → ℕ
unfolding shl64
var_value result [] = result
var_value result (b ∷ bs) = var_value (shl64 result 8 + b) bs

unfoldable pub read_sized : List ℕ → FieldInfo → Result ℕ
unfolding var_value
read_sized rest i =
    if not i.count_set
    then err (structural_error i.name no_size_information)
    else if ltb (length rest) i.count
    then err (syntax_error i.name truncated_integer)
    else (do let result = var_value 0 (take i.count rest); check i result i.name; ok result)

-- `readVarUint`.
unfoldable pub read_var_uint : List ℕ → Option FieldInfo → Result ℕ
unfolding read_sized
read_var_uint rest none = err (structural_error [] no_size_information)
read_var_uint rest (some i) = read_sized rest i

-- `info.count`, a fault where info is nil.
abbrev pub count_of : Option FieldInfo → Result ℕ
count_of none = panic
count_of (some i) = ok i.count

abbrev pub non_nil : Option FieldInfo → Result FieldInfo
non_nil none = panic
non_nil (some i) = ok i

-- `len(rest) < n`, the error, or the bytes read.
unfoldable pub require : List ℕ → ℕ → Text → Message → Result (Unit {0})
require rest n name m = if ltb (length rest) n then err (syntax_error name m) else ok tt

-- The value of a field whose kind is that of Enum, Uint64.
abbrev pub enum_value : (t : GoType) → Val t → Option ℕ
enum_value uint64 v = some v
enum_value enum v = some v
enum_value _ v = none

abbrev pub remember : Text → Option ℕ → Map ℕ → Map ℕ
remember name none enums = enums
remember name (some v) enums = insert name v enums

-- A field with a selector tag that is no pointer.
unfoldable pub refuse_select : FieldInfo → Map ℕ → Result (Unit {0})
unfolding lookup
refuse_select i enums = if is_empty i.selector then ok tt else elim (lookup i.selector enums) [
  | none ↦ err (structural_error i.name selector_not_seen)
  | some choice ↦ err (structural_error i.name choice_not_pointer)
]

-- A pointer with no selector tag is of no supported kind.
unfoldable pub need_selector : FieldInfo → Result (Unit {0})
need_selector i =
    if is_empty i.selector then err (structural_error i.name unsupported_type) else ok tt

abbrev pub is_seen : Option Bool → Bool
is_seen none = false
is_seen (some b) = b

abbrev pub first_mention : Text → Option Bool → Map Bool → Map Bool
first_mention s none seen = insert s false seen
first_mention s (some b) seen = seen

-- Whether a pointer field with a selector is the chosen one, and the selectors seen so far.
unfoldable pub choose : FieldInfo → Map ℕ → Map Bool → Result (Bool × Map Bool)
unfolding lookup insert
choose i enums seen = elim (lookup i.selector enums) [
  | none ↦ err (structural_error i.name selector_not_seen)
  | some choice ↦
      let known = lookup i.selector seen in
      let mentioned = first_mention i.selector known seen in
      if not (choice == i.val)
      then ok (false, mentioned)
      else if is_seen known
      then err (structural_error i.name duplicate_selector)
      else ok (true, insert i.selector true mentioned)
]

-- Each selector found a destination. Go takes the selectors in any order, and so may name another.
unfoldable pub check_seen : Option FieldInfo → Map Bool → Result (Unit {0})
check_seen info [] = ok tt
check_seen info ((s, true) ∷ m) = check_seen info m
check_seen info ((s, false) ∷ m) = err (syntax_error (field_name info) unhandled_selector)

-- `for innerOffset := 0; innerOffset < len(inner);`. An element that takes no input makes no
-- progress: then the loop does not end. Otherwise `length inner` rounds are enough.
unfoldable pub parse_elems {ℓ} : {A : Type ℓ} → (ℕ → Result (ℕ × A)) → ℕ → ℕ → ℕ → Result (List A)
parse_elems parse zero size o = if ltb o size then diverge else ok []
parse_elems parse (suc f) size o = elim (ltb o size) [
  | true ↦ do (o', v) ← parse o; vs ← parse_elems parse f size o'; ok (v ∷ vs)
  | false ↦ ok []
]
