-- ===== src/Tls/Marshal.antt =====
-- tls/tls.go: `marshalField` and `Marshal`. The bytes written to the buffer are the result.
use certificate_transparency.Prelude.{
  ℕ, ◌-◌, ◌%◌, ◌^◌, Bool, true, false, Option, none, some, List, [], ◌∷◌, ◌++◌, ltb, if◌then◌else◌,
  length, drop, map,
}
use certificate_transparency.Prelude.Bytes.{be_bytes}
use certificate_transparency.Prelude.Text.{Text, codes, Map}
use certificate_transparency.Prelude.Outcome.{ok, err, panic, ◌>>=◌, ◌>>◌}
use certificate_transparency.Tls.Tag.{
  Message, structural_error, Result, FieldInfo, field_name, is_empty, field_tag_to_field_info,
  check, unsupported_array_type, unsupported_type, unchosen_not_nil, chosen_nil, uint24_overflow,
  enum_tag_missing, slice_tag_missing,
}
use certificate_transparency.Tls.Types.{
  GoType, Fields, uint8, uint16, uint24, uint32, uint64, enum, byte_array, array, bytes, slice,
  named_byte_array, named_bytes, struct, other, done, field, pointer, hidden, hidden_pointer, Val,
  FieldVals,
}
use certificate_transparency.Tls.Parse.{
  non_nil, enum_value, remember, refuse_select, need_selector, choose, check_seen,
}

-- `prefix`, which the checks take for the field's name.
abbrev pub prefix : FieldInfo → Text
prefix i = if is_empty i.name then [] else i.name ++ codes ": "

-- `scratch[(8 - info.count):]` after `binary.BigEndian.PutUint64(scratch, x)`; the index wraps
-- around below 0, and the slice is then out of range.
unfoldable pub put_sized : FieldInfo → ℕ → Result (List ℕ)
unfolding be_bytes
put_sized i x = if ltb 8 i.count then panic else ok (drop (8 - i.count) (be_bytes 8 x))

unfoldable pub marshal_elems {ℓ} : {A : Type ℓ} → (A → Result (List ℕ)) → List A → Result (List ℕ)
marshal_elems m [] = ok []
marshal_elems m (v ∷ vs) = do out ← m v; rest ← marshal_elems m vs; ok (out ++ rest)

abbrev pub tagged : Option FieldInfo → Message → Result FieldInfo
tagged none e = err (structural_error [] e)
tagged (some i) e = ok i

-- The pointed-to object of a select field: there is one exactly where the field is chosen.
unfoldable pub source_of {ℓ} : {A : Type ℓ} → FieldInfo → Bool → Option A → Result (Option A)
source_of i false none = ok none
source_of i false (some v) = err (structural_error i.name unchosen_not_nil)
source_of i true none = err (structural_error i.name chosen_nil)
source_of i true (some v) = ok (some v)

unfoldable mutual
  unfolding put_sized check refuse_select need_selector source_of choose check_seen marshal_elems
      field_tag_to_field_info

  -- `marshalField`.
  pub marshal_field : (t : GoType) → Val t → Option FieldInfo → Result (List ℕ)
  marshal_field uint8 v info = ok (v % 256 ∷ [])
  marshal_field uint16 v info = ok (be_bytes 2 (v % 2 ^ 16))
  marshal_field uint24 v info =
      if ltb 0xffffff v
      then err (structural_error (field_name info) uint24_overflow)
      else ok (drop 1 (be_bytes 4 (v % 2 ^ 32)))
  marshal_field uint32 v info = ok (be_bytes 4 (v % 2 ^ 32))
  marshal_field uint64 v info = ok (be_bytes 8 v)
  marshal_field enum v info = do
    i ← tagged info enum_tag_missing
    check i v (prefix i)
    put_sized i v
  marshal_field (struct fs) v info = do
    (out, seen) ← marshal_fields fs v [] []
    check_seen info seen
    ok out
  marshal_field (byte_array n) v info = ok (map (λ b. b % 256) v)
  marshal_field (array n) v info = err (structural_error (field_name info) unsupported_array_type)
  -- The length is written before it is checked.
  marshal_field bytes v info = do
    i ← tagged info slice_tag_missing
    size ← put_sized i (length v)
    check i (length v) (prefix i)
    ok (size ++ map (λ b. b % 256) v)
  marshal_field (slice t) v info = do
    i ← tagged info slice_tag_missing
    inner ← marshal_elems (λ x. marshal_field t x none) v
    check i (length inner) (prefix i)
    size ← put_sized i (length inner)
    ok (size ++ inner)
  marshal_field (named_byte_array n) v info = ok (map (λ b. b % 256) v)
  marshal_field named_bytes v info = do
    i ← tagged info slice_tag_missing
    size ← put_sized i (length v)
    check i (length v) (prefix i)
    ok (size ++ map (λ b. b % 256) v)
  marshal_field other v info = err (structural_error (field_name info) unsupported_type)

  -- The loop over the fields of a struct: the bytes written, and the selectors seen.
  pub marshal_fields : (fs : Fields) → FieldVals fs → Map ℕ → Map Bool → Result (List ℕ × Map Bool)
  marshal_fields done vs enums seen = ok ([], seen)
  marshal_fields (field name tag t fs) vs enums seen = do
    info ← field_tag_to_field_info tag name
    i ← non_nil info
    refuse_select i enums
    out ← marshal_field t vs.0 (some i)
    (rest, seen') ← marshal_fields fs vs.1 (remember name (enum_value t vs.0) enums) seen
    ok (out ++ rest, seen')
  marshal_fields (pointer name tag t fs) vs enums seen = do
    info ← field_tag_to_field_info tag name
    i ← non_nil info
    need_selector i
    (chosen, seen') ← choose i enums seen
    source ← source_of i chosen vs.0
    elim source [
      | none ↦ marshal_fields fs vs.1 enums seen'
      | some v ↦ do
        out ← marshal_field t v (some i)
        (rest, seen'') ← marshal_fields fs vs.1 enums seen'
        ok (out ++ rest, seen'')
    ]
  -- To read a field, it need not be exported.
  marshal_fields (hidden name tag t fs) vs enums seen = do
    info ← field_tag_to_field_info tag name
    i ← non_nil info
    refuse_select i enums
    out ← marshal_field t vs.0 (some i)
    (rest, seen') ← marshal_fields fs vs.1 (remember name (enum_value t vs.0) enums) seen
    ok (out ++ rest, seen')
  marshal_fields (hidden_pointer name tag t fs) vs enums seen = do
    info ← field_tag_to_field_info tag name
    i ← non_nil info
    need_selector i
    (chosen, seen') ← choose i enums seen
    source ← source_of i chosen vs.0
    elim source [
      | none ↦ marshal_fields fs vs.1 enums seen'
      | some v ↦ do
        out ← marshal_field t v (some i)
        (rest, seen'') ← marshal_fields fs vs.1 enums seen'
        ok (out ++ rest, seen'')
    ]

-- `MarshalWithParams`.
unfoldable pub marshal_with_params : (t : GoType) → Val t → Text → Result (List ℕ)
unfolding marshal_field
marshal_with_params t v params = do info ← field_tag_to_field_info params []; marshal_field t v info

-- `Marshal`.
unfoldable pub marshal : (t : GoType) → Val t → Result (List ℕ)
unfolding marshal_with_params
marshal t v = marshal_with_params t v []
