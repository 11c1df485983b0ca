-- ===== src/Tls/Tag.antt =====
-- tls/tls.go: errors, field tags and the checked width of a number.
-- Texts are lists of bytes; an error keeps its field name, and a constructor for its message.
use certificate_transparency.Prelude.{
  ℕ, ◌+◌, ◌-◌, ◌*◌, ◌%◌, ◌^◌, Bool, true, false, not, ◌&&◌, Option, none, some, List, [], ◌∷◌, ◌++◌,
  ltb, leb, ◌==◌, if◌then◌else◌, drop,
}
use certificate_transparency.Prelude.Text.{Text, codes, starts_with}
use certificate_transparency.Prelude.Outcome.{Outcome, ok, err}
use mathlib.Core.List.{foldl}

-- The messages of the package's errors; `unsupported_type` has the type and its kind in it.
pub data Message : Type 0 where
  unknown_size size_too_large length_inverted selector_value_only : Message
  value_too_large value_too_small value_over_maximum : Message
  no_size_information truncated_integer : Message
  truncated_uint8 truncated_uint16 truncated_uint24 truncated_uint32 truncated_uint64 : Message
  truncated_array truncated_slice unsupported_array_type unsupported_type : Message
  selector_not_seen choice_not_pointer duplicate_selector unhandled_selector : Message
  unchosen_not_nil chosen_nil uint24_overflow enum_tag_missing slice_tag_missing : Message

pub data TlsError : Type 0 where
  structural_error : Text → Message → TlsError
  syntax_error : Text → Message → TlsError

abbrev pub Result {ℓ} : Type ℓ → Type ℓ
Result A = Outcome TlsError A

-- The number of bytes for values up to `x`.
unfoldable pub byte_count : ℕ → ℕ
byte_count x =
    if ltb x 0x100
    then 1
    else if ltb x 0x10000
    then 2
    else if ltb x 0x1000000
    then 3
    else if ltb x 0x100000000
    then 4
    else if ltb x 0x10000000000
    then 5
    else if ltb x 0x1000000000000
    then 6
    else if ltb x 0x100000000000000
    then 7
    else 8

pub record FieldInfo : Type 0 where
  pub count : ℕ
  pub count_set : Bool
  pub minlen : ℕ
  pub maxlen : ℕ
  pub selector : Text
  pub val : ℕ
  pub name : Text

-- `fieldInfo{}`.
abbrev pub zero_info : FieldInfo
zero_info = record {
  count = 0;
  count_set = false;
  minlen = 0;
  maxlen = 0;
  selector = [];
  val = 0;
  name = [];
}

-- The receiver may be nil.
abbrev pub field_name : Option FieldInfo → Text
field_name none = []
field_name (some i) = i.name

-- `strings.Split(s, ",")`: the parts between the commas, one part at least. The part that is being
-- read comes first.
unfoldable pub split_loop : Text → Text → List Text
split_loop part [] = part ∷ []
split_loop part (c ∷ cs) = elim (c == b',') [
  | true ↦ part ∷ split_loop [] cs
  | false ↦ split_loop (part ++ (c ∷ [])) cs
]

unfoldable pub split_comma : Text → List Text
unfolding split_loop
split_comma s = split_loop [] s

-- `strconv.ParseUint(s, 10, bits)`: digits only, one at least, and the value fits the width.
unfoldable pub parse_digits : ℕ → Text → Option ℕ
parse_digits acc [] = some acc
parse_digits acc (c ∷ cs) =
    let rest = parse_digits (acc * 10 + (c - b'0')) cs in
    if leb b'0' c && leb c b'9' then rest else none

unfoldable pub fit : ℕ → Option ℕ → Option ℕ
fit bits none = none
fit bits (some v) = if ltb v (2 ^ bits) then some v else none

unfoldable pub parse_uint : ℕ → Text → Option ℕ
unfolding parse_digits fit
parse_uint bits [] = none
parse_uint bits (c ∷ cs) = fit bits (parse_digits 0 (c ∷ cs))

-- `if info == nil { info = &fieldInfo{} }`.
abbrev pub or_new : Option FieldInfo → FieldInfo
or_new none = zero_info
or_new (some i) = i

-- A clause whose number does not parse is ignored.
abbrev pub when_number : Option FieldInfo → Option ℕ → (ℕ → FieldInfo) → Option FieldInfo
when_number info none f = info
when_number info (some v) f = some (f v)

-- One clause of a tag.
unfoldable pub tag_clause : Option FieldInfo → Text → Option FieldInfo
unfolding parse_uint byte_count starts_with
tag_clause info part =
    if starts_with part (codes "maxval:")
    then when_number info (parse_uint 64 (drop 7 part))
        (λ v. record zero_info { count = byte_count v; count_set = true })
    else if starts_with part (codes "size:")
    then when_number info (parse_uint 32 (drop 5 part))
        (λ sz. record zero_info { count = sz; count_set = true })
    else if starts_with part (codes "maxlen:")
    then when_number info (parse_uint 64 (drop 7 part))
        (λ v. record (or_new info) { count = byte_count v; count_set = true; maxlen = v })
    else if starts_with part (codes "minlen:")
    then when_number info (parse_uint 64 (drop 7 part)) (λ v. record (or_new info) { minlen = v })
    else if starts_with part (codes "selector:")
    then some (record (or_new info) { selector = drop 9 part })
    else if starts_with part (codes "val:")
    then when_number info (parse_uint 64 (drop 4 part)) (λ v. record (or_new info) { val = v })
    else info

abbrev pub is_empty : Text → Bool
is_empty [] = true
is_empty (c ∷ cs) = false

-- The checks on a tag that gave some information.
unfoldable pub check_info : Text → FieldInfo → Result (Option FieldInfo)
check_info name i =
    if not (is_empty i.selector)
    then ok (some i)
    else if ltb i.count 1
    then err (structural_error name unknown_size)
    else if ltb 8 i.count
    then err (structural_error name size_too_large)
    else if ltb i.maxlen i.minlen
    then err (structural_error name length_inverted)
    else if ltb 0 i.val
    then err (structural_error name selector_value_only)
    else ok (some i)

unfoldable pub finish_info : Text → Option FieldInfo → Result (Option FieldInfo)
unfolding check_info
finish_info name (some i) = check_info name (record i { name = name })
finish_info name none =
    if is_empty name then ok none else ok (some (record zero_info { name = name }))

-- `fieldTagToFieldInfo`; the result `none` is a nil pointer.
unfoldable pub field_tag_to_field_info : Text → Text → Result (Option FieldInfo)
unfolding tag_clause split_comma finish_info
field_tag_to_field_info str name = finish_info name (foldl tag_clause none (split_comma str))

-- `x << n` on 64 bits.
unfoldable pub shl64 : ℕ → ℕ → ℕ
shl64 x n = x * 2 ^ n % 2 ^ 64

-- The constant 1 of `val >= (1 << (8 * i.count))` has the type of `val`, a uint64.
unfoldable pub check : FieldInfo → ℕ → Text → Result (Unit {0})
unfolding shl64
check i val fld_name =
    if leb (shl64 1 (8 * i.count)) val
    then err (structural_error fld_name value_too_large)
    else if i.maxlen == 0
    then ok tt
    else if ltb val i.minlen
    then err (structural_error fld_name value_too_small)
    else if ltb i.maxlen val
    then err (structural_error fld_name value_over_maximum)
    else ok tt
