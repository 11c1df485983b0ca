-- ===== src/Tls/RoundTrip.antt =====
-- tls/tls.go: what `marshalField` wrote, `parseField` reads back.
mod Steps
mod Cases
use mathlib.Core.Path.{ap₂}
use native.Mathlib.Nat.{mod-eq_of_lt}
use certificate_transparency.Prelude.{
  ℕ, zero, suc, ◌+◌, ◌-◌, ◌%◌, ◌^◌, ◌≤◌, ◌<◌, ◌≡◌, refl, sym, ap, subst, ◌∙◌, Bool, true, false,
  ◌&&◌, Option, none, some, List, [], ◌∷◌, ◌++◌, ltb, tests, arith, if◌then◌else◌, length, take,
  drop, All, Bool-cases, map, &&_split, inl, inr, take-length_append, drop-length_append, drop-drop,
  length-append, length-drop, ge→ltb, lt→ltb, append_assoc,
}
use certificate_transparency.Prelude.Bytes.{
  map_byte, IsByte, be_bytes, be_value, length-be_bytes, be_value-be_bytes, be_bytes-IsByte,
}
use certificate_transparency.Prelude.Text.{Text, Map}
use certificate_transparency.Prelude.Outcome.{
  Outcome, ok, err, panic, diverge, ◌>>=◌, ◌>>◌, ok_inj, >>=-eq-ok,
}
use certificate_transparency.Tls.Tag.{
  Message, FieldInfo, Result, field_name, field_tag_to_field_info, check,
}
use certificate_transparency.Tls.Types.{
  GoType, Fields, uint8, uint16, uint24, uint32, uint64, enum, byte_array, array, bytes, slice,
  named_byte_array, named_bytes, struct, other, done, field, pointer, hidden, hidden_pointer, Val,
  FieldVals,
}
use certificate_transparency.Tls.Parse.{
  unmarshal_with_params, need_selector, require, parse_field, parse_fields, parse_elems,
  read_var_uint, enum_value, remember, refuse_select, choose, check_seen,
}
use certificate_transparency.Tls.Marshal.{
  marshal_with_params, marshal_field, marshal_fields, marshal_elems, put_sized, prefix,
}
use certificate_transparency.Tls.Width.{Fits, check→Fits, put_sized_lem, read_sized-be_bytes}
use certificate_transparency.Tls.Written.{
  marshal_elems_cons, marshal_enum, marshal_bytes, marshal_slice, marshal_struct, Written,
  marshal_fields_field, WrittenSelect, marshal_fields_pointer,
}
use certificate_transparency.Tls.Bounds.{Within, parse_field-Within}
use certificate_transparency.Tls.Codable.{
  IsVal, AreVals, is_codable, fields_are_codable, takes_input, is_sized, info_of,
}
use Steps.{
  drop_read, take_read, fixed_read, Reads, fixed_step, sized_step, fixed_case, one_byte, mod_same,
  parse_elems-marshal_elems,
}
use Cases.{
  enum_case, bytes_case, struct_case, slice_case, array_case, done_case, field_case, passed_case,
  chosen_case, select_case,
}

mutual
  unfolding marshal_field parse_field is_codable

  pub marshal_field-Reads :
      (t : GoType) (v : Val t) (info : Option FieldInfo) (bs : List ℕ)
      → is_codable t info ≡ true
      → IsVal t v
      → marshal_field t v info ≡ ok bs
      → Reads t info bs v
  marshal_field-Reads uint8 v info bs c h m =
      fixed_case 1 v (field_name info) Message.truncated_uint8 bs (omega arith)
        (one_byte v (omega arith) ∙ ok_inj m)
  marshal_field-Reads uint16 v info bs c h m =
      fixed_case 2 v (field_name info) Message.truncated_uint16 bs (omega arith)
        (ap (be_bytes 2) (sym (mod_same (2 ^ 16) v h)) ∙ ok_inj m)
  marshal_field-Reads uint24 v info bs c h m = cc
  marshal_field-Reads uint32 v info bs c h m =
      fixed_case 4 v (field_name info) Message.truncated_uint32 bs (omega arith)
        (ap (be_bytes 4) (sym (mod_same (2 ^ 32) v h)) ∙ ok_inj m)
  marshal_field-Reads uint64 v info bs c h m =
      fixed_case 8 v (field_name info) Message.truncated_uint64 bs (omega arith) (ok_inj m)
  marshal_field-Reads enum v info bs c h m = enum_case v info bs c m
  marshal_field-Reads (byte_array n) v info bs c h m =
      array_case n v info bs h.0 (sym (map_byte v h.1) ∙ ok_inj m)
  marshal_field-Reads (array n) v info bs c h m = cc
  marshal_field-Reads bytes v info bs c h m = bytes_case v info bs c h m
  marshal_field-Reads (slice t) v info bs c h m =
      let (c0, c4) = &&_split (is_sized info && takes_input t none) (is_codable t none) c in
      let (c1, c3) = &&_split (is_sized info) (takes_input t none) c0 in
      slice_case t v info bs c1 c3 h (λ x out hx mx. marshal_field-Reads t x none out c4 hx mx) m
  marshal_field-Reads (struct fs) v info bs c h m =
      let (seen, written, checked) = marshal_struct fs v info bs m in
      λ input o rest e.
        struct_case fs v info bs seen input o checked
          (marshal_fields-Reads fs v [] [] bs seen c h written input o rest e)
  marshal_field-Reads (named_byte_array n) v info bs c h m = cc
  marshal_field-Reads named_bytes v info bs c h m = cc
  marshal_field-Reads other v info bs c h m = cc

  pub marshal_fields-Reads :
      (fs : Fields) (vs : FieldVals fs) (enums : Map ℕ) (seen : Map Bool) (bs : List ℕ)
      (seen' : Map Bool)
      → fields_are_codable fs ≡ true
      → AreVals fs vs
      → marshal_fields fs vs enums seen ≡ ok (bs, seen')
      → (input : List ℕ) (o : ℕ) (rest : List ℕ) → drop o input ≡ bs ++ rest
      → parse_fields fs input o enums seen ≡ ok (o + length bs, seen', vs)
  marshal_fields-Reads done vs enums seen bs seen' c h m =
      λ input o rest e. done_case input o enums seen seen' vs bs (ok_inj m)
  marshal_fields-Reads (field name tag t fs) vs enums seen bs seen' c h m =
      let w : Written name tag t fs vs enums seen seen' bs =
        marshal_fields_field name tag t fs vs enums seen seen' bs m in
      let (c1, c2) =
        &&_split (is_codable t (info_of (field_tag_to_field_info tag name))) (fields_are_codable fs)
          c in
      λ input o rest e.
        let front : drop o input ≡ w.out ++ (w.rest ++ rest) =
          e ∙ ap (λ (x : List ℕ). x ++ rest) (sym w.joined) ∙ append_assoc w.out w.rest rest in
        field_case name tag t fs vs enums seen seen' bs w input o
          (marshal_field-Reads t vs.0 (some w.i) w.out (rw w.tagged at c1) h.0 w.first input o
            (w.rest ++ rest) front)
          (marshal_fields-Reads fs vs.1 (remember name (enum_value t vs.0) enums) seen w.rest seen'
            c2 h.1 w.others input (o + length w.out) rest
            (drop_read input o w.out (w.rest ++ rest) front))
  marshal_fields-Reads (pointer name tag t fs) vs enums seen bs seen'' c h m =
      let (i, chosen, seen', tagged, select, choice, w) =
        marshal_fields_pointer name tag t fs vs enums seen seen'' bs m in
      let (c1, c2) =
        &&_split (is_codable t (info_of (field_tag_to_field_info tag name))) (fields_are_codable fs)
          c in
      select_case name tag t fs vs.0 vs.1 enums seen seen' seen'' bs i chosen tagged select choice
        (λ v out hv mv. marshal_field-Reads t v (some i) out (rw tagged at c1) (h.0 v hv) mv)
        (λ out mv. marshal_fields-Reads fs vs.1 enums seen' out seen'' c2 h.1 mv) w
  marshal_fields-Reads (hidden name tag t fs) vs enums seen bs seen' c h m = cc
  marshal_fields-Reads (hidden_pointer name tag t fs) vs enums seen bs seen' c h m = cc

-- What Marshal wrote, Unmarshal reads back, and leaves the bytes that follow: for a type with no
-- `Uint24` in it whose fields are exported, whose numbers and lengths have a width, whose arrays and
-- slices of bytes have elements of type uint8 and whose other slices have elements that take input,
-- and for a value of that type, under the same parameters.
pub unmarshal-marshal_params :
    (t : GoType) (v : Val t) (params : Text) (bs rest : List ℕ)
    → is_codable t (info_of (field_tag_to_field_info params [])) ≡ true
    → IsVal t v
    → marshal_with_params t v params ≡ ok bs
    → unmarshal_with_params t (bs ++ rest) params ≡ ok (v, rest)
unfolding marshal_with_params unmarshal_with_params
unmarshal-marshal_params t v params bs rest c h m =
    let (info, tagged, written) = >>=-eq-ok (field_tag_to_field_info params []) _ m in
    let read : parse_field t (bs ++ rest) 0 info ≡ ok (0 + length bs, v) =
      marshal_field-Reads t v info bs (rw tagged at c) h written (bs ++ rest) 0 rest refl in
    let left : drop (0 + length bs) (bs ++ rest) ≡ rest = drop_read (bs ++ rest) 0 bs rest refl in
    rw (tagged, read) (ap (λ (r : List ℕ). ok (v, r)) left)
