-- ===== src/Tls/Parse.antt =====
-- tls/tls.go: `parseField` and `Unmarshal`. The state of the struct loop is passed on explicitly.
mod Steps
mod Unset
unfoldable pub use Steps.*
unfoldable pub use Unset.*
use certificate_transparency.Prelude.{
  ℕ, ◌+◌, Bool, true, false, Option, none, some, List, [], length, take, drop,
}
use certificate_transparency.Prelude.Bytes.{be_value}
use certificate_transparency.Prelude.Text.{Text, Map}
use certificate_transparency.Prelude.Outcome.{ok, err, panic, ◌>>=◌, ◌>>◌}
use certificate_transparency.Tls.Tag.{
  structural_error, Result, FieldInfo, field_name, field_tag_to_field_info, truncated_uint8,
  truncated_uint16, truncated_uint24, truncated_uint32, truncated_uint64, truncated_array,
  truncated_slice, unsupported_array_type, unsupported_type,
}
use certificate_transparency.Tls.Types.{
  GoType, Fields, uint8, uint16, uint24, uint32, uint64, enum, byte_array, array, bytes, slice,
  named_byte_array, named_bytes, struct, other, done, field, pointer, hidden, hidden_pointer, Val,
  FieldVals,
}

unfoldable mutual
  unfolding read_var_uint require refuse_select need_selector choose check_seen parse_elems
      parse_hidden field_tag_to_field_info

  -- `parseField`: the offset after the field, and the value set.
  pub parse_field : (t : GoType) → List ℕ → ℕ → Option FieldInfo → Result (ℕ × Val t)
  parse_field uint8 input o info = do
    require (drop o input) 1 (field_name info) truncated_uint8
    ok (o + 1, be_value 0 (take 1 (drop o input)))
  parse_field uint16 input o info = do
    require (drop o input) 2 (field_name info) truncated_uint16
    ok (o + 2, be_value 0 (take 2 (drop o input)))
  -- `data[0]`, `data[1]`, `data[2]`: the source does not read at the offset here.
  parse_field uint24 input o info = do
    require (drop o input) 3 (field_name info) truncated_uint24
    ok (o + 3, be_value 0 (take 3 input))
  parse_field uint32 input o info = do
    require (drop o input) 4 (field_name info) truncated_uint32
    ok (o + 4, be_value 0 (take 4 (drop o input)))
  parse_field uint64 input o info = do
    require (drop o input) 8 (field_name info) truncated_uint64
    ok (o + 8, be_value 0 (take 8 (drop o input)))
  parse_field enum input o info = do
    val ← read_var_uint (drop o input) info
    count ← count_of info
    ok (o + count, val)
  parse_field (struct fs) input o info = do
    (o', seen, vs) ← parse_fields fs input o [] []
    check_seen info seen
    ok (o', vs)
  parse_field (byte_array n) input o info = do
    require (drop o input) n (field_name info) truncated_array
    ok (o + n, take n (drop o input))
  parse_field (array n) input o info = do
    require (drop o input) n (field_name info) truncated_array
    err (structural_error (field_name info) unsupported_array_type)
  parse_field bytes input o info = do
    datalen ← read_var_uint (drop o input) info
    count ← count_of info
    require (drop (o + count) input) datalen (field_name info) truncated_slice
    ok (o + count + datalen, take datalen (drop (o + count) input))
  parse_field (slice t) input o info = do
    datalen ← read_var_uint (drop o input) info
    count ← count_of info
    require (drop (o + count) input) datalen (field_name info) truncated_slice
    let inner = take datalen (drop (o + count) input)
    vs ← parse_elems (λ io. parse_field t inner io none) (length inner) (length inner) 0
    ok (o + count + datalen, vs)
  -- reflect.Copy panics where the types of the elements differ.
  parse_field (named_byte_array n) input o info =
      require (drop o input) n (field_name info) truncated_array >> panic
  parse_field named_bytes input o info = do
    datalen ← read_var_uint (drop o input) info
    count ← count_of info
    require (drop (o + count) input) datalen (field_name info) truncated_slice
    panic
  parse_field other input o info = err (structural_error (field_name info) unsupported_type)

  -- The loop over the fields of a struct, with the enum values met and the selectors seen.
  pub parse_fields :
      (fs : Fields) → List ℕ → ℕ → Map ℕ → Map Bool → Result (ℕ × Map Bool × FieldVals fs)
  parse_fields done input o enums seen = ok (o, seen, tt)
  parse_fields (field name tag t fs) input o enums seen = do
    info ← field_tag_to_field_info tag name
    i ← non_nil info
    refuse_select i enums
    (o', v) ← parse_field t input o (some i)
    (o'', seen', vs) ← parse_fields fs input o' (remember name (enum_value t v) enums) seen
    ok (o'', seen', (v, vs))
  parse_fields (pointer name tag t fs) input o enums seen = do
    info ← field_tag_to_field_info tag name
    i ← non_nil info
    need_selector i
    (chosen, seen') ← choose i enums seen
    elim chosen [
      | false ↦ do
        (o', seen'', vs) ← parse_fields fs input o enums seen'
        ok (o', seen'', (none, vs))
      | true ↦ do
        (o', v) ← parse_field t input o (some i)
        (o'', seen'', vs) ← parse_fields fs input o' enums seen'
        ok (o'', seen'', (some v, vs))
    ]
  parse_fields (hidden name tag t fs) input o enums seen = do
    info ← field_tag_to_field_info tag name
    i ← non_nil info
    refuse_select i enums
    (o', v) ← parse_hidden t input o (some i)
    (o'', seen', vs) ← parse_fields fs input o' enums seen
    ok (o'', seen', (v, vs))
  -- A pointer with a selector is set, to nil or to a new object.
  parse_fields (hidden_pointer name tag t fs) input o enums seen = do
    info ← field_tag_to_field_info tag name
    i ← non_nil info
    need_selector i
    c ← choose i enums seen
    panic

-- `UnmarshalWithParams`: the value, and the input that is left.
unfoldable pub unmarshal_with_params : (t : GoType) → List ℕ → Text → Result (Val t × List ℕ)
unfolding parse_field
unmarshal_with_params t b params = do
  info ← field_tag_to_field_info params []
  (offset, v) ← parse_field t b 0 info
  ok (v, drop offset b)

-- `Unmarshal`.
unfoldable pub unmarshal : (t : GoType) → List ℕ → Result (Val t × List ℕ)
unfolding unmarshal_with_params
unmarshal t b = unmarshal_with_params t b []
