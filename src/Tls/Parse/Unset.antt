-- ===== src/Tls/Parse/Unset.antt =====
-- tls/tls.go: `parseField` on what reflection does not set.
use certificate_transparency.Prelude.{ℕ, ◌+◌, Option, some, List, [], drop}
use certificate_transparency.Prelude.Outcome.{ok, err, panic, ◌>>=◌, ◌>>◌}
use certificate_transparency.Tls.Tag.{
  structural_error, Result, FieldInfo, field_name, field_tag_to_field_info, truncated_uint8,
  truncated_uint16, truncated_uint24, truncated_uint32, truncated_uint64, truncated_array,
  truncated_slice, unsupported_array_type, unsupported_type, selector_not_seen,
}
use certificate_transparency.Tls.Types.{
  GoType, Fields, uint8, uint16, uint24, uint32, uint64, enum, byte_array, array, bytes, slice,
  named_byte_array, named_bytes, struct, other, done, field, pointer, hidden, hidden_pointer, Val,
  FieldVals,
}
use certificate_transparency.Tls.Parse.Steps.{
  read_var_uint, count_of, non_nil, require, refuse_select, need_selector,
}

-- The slice case up to the value that is set.
abbrev hidden_vector : {A : Type 0} → List ℕ → ℕ → Option FieldInfo → Result A
hidden_vector input o info = do
  datalen ← read_var_uint (drop o input) info
  count ← count_of info
  require (drop (o + count) input) datalen (field_name info) truncated_slice
  panic

-- A value that reflection does not set is not returned: the method panics that would set it.
unfoldable mutual
  unfolding read_var_uint require refuse_select need_selector field_tag_to_field_info

  -- `parseField` on a value that is reached through a field that is not exported. Only where there is
  -- nothing to set does it return.
  pub parse_hidden : (t : GoType) → List ℕ → ℕ → Option FieldInfo → Result (ℕ × Val t)
  parse_hidden uint8 input o info =
      require (drop o input) 1 (field_name info) truncated_uint8 >> panic
  parse_hidden uint16 input o info =
      require (drop o input) 2 (field_name info) truncated_uint16 >> panic
  parse_hidden uint24 input o info =
      require (drop o input) 3 (field_name info) truncated_uint24 >> panic
  parse_hidden uint32 input o info =
      require (drop o input) 4 (field_name info) truncated_uint32 >> panic
  parse_hidden uint64 input o info =
      require (drop o input) 8 (field_name info) truncated_uint64 >> panic
  parse_hidden enum input o info = read_var_uint (drop o input) info >>= λ val. panic
  parse_hidden (struct fs) input o info = parse_hidden_fields fs input o
  parse_hidden (byte_array n) input o info =
      require (drop o input) n (field_name info) truncated_array >> panic
  parse_hidden (named_byte_array n) input o info =
      require (drop o input) n (field_name info) truncated_array >> panic
  parse_hidden (array n) input o info = do
    require (drop o input) n (field_name info) truncated_array
    err (structural_error (field_name info) unsupported_array_type)
  parse_hidden bytes input o info = hidden_vector input o info
  parse_hidden named_bytes input o info = hidden_vector input o info
  parse_hidden (slice t) input o info = hidden_vector input o info
  parse_hidden other input o info = err (structural_error (field_name info) unsupported_type)

  -- No enum value is met in such a struct, so that no selector is seen.
  pub parse_hidden_fields : (fs : Fields) → List ℕ → ℕ → Result (ℕ × FieldVals fs)
  parse_hidden_fields done input o = ok (o, tt)
  parse_hidden_fields (field name tag t fs) input o = do
    info ← field_tag_to_field_info tag name
    i ← non_nil info
    refuse_select i []
    (o', v) ← parse_hidden t input o (some i)
    (o'', vs) ← parse_hidden_fields fs input o'
    ok (o'', (v, vs))
  parse_hidden_fields (hidden name tag t fs) input o = do
    info ← field_tag_to_field_info tag name
    i ← non_nil info
    refuse_select i []
    (o', v) ← parse_hidden t input o (some i)
    (o'', vs) ← parse_hidden_fields fs input o'
    ok (o'', (v, vs))
  parse_hidden_fields (pointer name tag t fs) input o = do
    info ← field_tag_to_field_info tag name
    i ← non_nil info
    need_selector i
    err (structural_error i.name selector_not_seen)
  parse_hidden_fields (hidden_pointer name tag t fs) input o = do
    info ← field_tag_to_field_info tag name
    i ← non_nil info
    need_selector i
    err (structural_error i.name selector_not_seen)
