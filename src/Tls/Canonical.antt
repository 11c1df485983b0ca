-- ===== src/Tls/Canonical.antt =====
-- tls/tls.go: what `parseField` read, `marshalField` writes again, byte for byte.
mod Steps
mod Cases
use mathlib.Core.Path.{ap₂}
use native.Mathlib.Nat.{mod-eq_of_lt}
use certificate_transparency.Prelude.{
  some_inj, take-append-drop, All-take, All-drop, &&_split, ltb→ge, ℕ, zero, suc, ◌+◌, ◌-◌, ◌%◌,
  ◌^◌, ◌≤◌, ◌<◌, ◌≡◌, inl, inr, ◌⊎◌, Option-cases, refl, sym, ap, subst, ◌∙◌, Bool, true, false,
  ◌&&◌, ◌||◌, ||_split, ltb→lt, Option, none, some, List, [], ◌∷◌, ◌++◌, ltb, tests, arith,
  if◌then◌else◌, length, take, drop, All, Bool-cases, map, &&_split, inl, inr, take-length_append,
  drop-length_append, drop-drop, length-append, ge→ltb, length-drop, length-take, ltb→ge,
  append_assoc,
}
use certificate_transparency.Prelude.Bytes.{
  map_byte, be_value-lt, be_bytes-be_value, IsByte, be_bytes, be_value, length-be_bytes,
  be_value-be_bytes, be_bytes-IsByte,
}
use certificate_transparency.Prelude.Text.{Text, Map}
use certificate_transparency.Prelude.Outcome.{
  Outcome, ok, err, panic, diverge, ◌>>=◌, ◌>>◌, >>=-eq-ok, ok_inj,
}
use certificate_transparency.Tls.Taken.{
  require-ok, read_fixed, parse_enum, Vector, parse_bytes, parse_slice, parse_struct, Taken,
  parse_fields_field,
}
use certificate_transparency.Tls.Chosen.{TakenSelect, parse_fields_pointer}
use certificate_transparency.Tls.Bounds.{Within, parse_field-Within}
use certificate_transparency.Tls.Written.{tagged_info}
use certificate_transparency.Tls.Tag.{
  truncated_uint8, truncated_uint16, truncated_uint32, truncated_uint64, truncated_array, is_empty,
  truncated_slice, Message, FieldInfo, Result, field_name, field_tag_to_field_info, check,
}
use certificate_transparency.Tls.Types.{
  GoType, Fields, uint8, uint16, uint24, uint32, uint64, enum, byte_array, array, bytes, slice,
  named_byte_array, named_bytes, struct, other, done, field, pointer, hidden, hidden_pointer, Val,
  FieldVals,
}
use certificate_transparency.Tls.Parse.{
  unmarshal_with_params, need_selector, non_nil, require, parse_field, parse_fields, parse_elems,
  read_var_uint, enum_value, remember, refuse_select, choose, check_seen,
}
use certificate_transparency.Tls.Marshal.{
  marshal_with_params, source_of, marshal_field, marshal_fields, marshal_elems, put_sized, prefix,
}
use certificate_transparency.Tls.Width.{
  Fits→check, pow_le, read_sized_parts, be_bytes-read_sized, Fits, check→Fits, put_sized_lem,
  read_sized-be_bytes,
}
use certificate_transparency.Tls.Codable.{
  is_wide, fields_take_input, IsVal, AreVals, is_codable, fields_are_codable, takes_input, is_sized,
  info_of,
}
use Steps.{Canon, cut_at, fixed_Canon, Vector-Canon, parse_elems-Canon}
use Cases.{
  fixed_case, enum_case, bytes_case, array_case, slice_case, CanonFields, struct_case, field_case,
  select_case,
}

one_byte : (v : ℕ) → v < 256 → v % 256 ∷ [] ≡ be_bytes 1 v
unfolding be_bytes
one_byte v h = ap (λ (b : ℕ). b ∷ []) (omega arith)

low_bytes : (k n v : ℕ) → v < n → be_bytes k (v % n) ≡ be_bytes k v
low_bytes k n v h = ap (be_bytes k) (mod-eq_of_lt h)

mutual
  unfolding parse_field is_codable marshal_field

  parse_field-Canon :
      (t : GoType) (input : List ℕ) (o : ℕ) (info : Option FieldInfo) (o' : ℕ) (v : Val t)
      → is_codable t info ≡ true
      → All IsByte input
      → o ≤ length input
      → parse_field t input o info ≡ ok (o', v)
      → Canon t input o o' info v
  parse_field-Canon uint8 input o info o' v c b start h =
      let (small, front) = fixed_case 1 (field_name info) truncated_uint8 input o o' v b h in
      record {
        out = be_bytes 1 v;
        valid = omega arith;
        written = ap ok (one_byte v (omega arith));
        read = sym front;
      }
  parse_field-Canon uint16 input o info o' v c b start h =
      let (small, front) = fixed_case 2 (field_name info) truncated_uint16 input o o' v b h in
      record {
        out = be_bytes 2 v;
        valid = omega arith;
        written = ap ok (low_bytes 2 (2 ^ 16) v (omega arith));
        read = sym front;
      }
  parse_field-Canon uint24 input o info o' v c b start h = cc
  parse_field-Canon uint32 input o info o' v c b start h =
      let (small, front) = fixed_case 4 (field_name info) truncated_uint32 input o o' v b h in
      record {
        out = be_bytes 4 v;
        valid = omega arith;
        written = ap ok (low_bytes 4 (2 ^ 32) v (omega arith));
        read = sym front;
      }
  parse_field-Canon uint64 input o info o' v c b start h =
      let (small, front) = fixed_case 8 (field_name info) truncated_uint64 input o o' v b h in
      record { out = be_bytes 8 v; valid = omega arith; written = refl; read = sym front }
  parse_field-Canon enum input o info o' v c b start h = enum_case input o o' v info b h
  parse_field-Canon (byte_array n) input o info o' v c b start h =
      array_case n input o o' v info b h
  parse_field-Canon (array n) input o info o' v c b start h =
      let (u, long, e) =
        >>=-eq-ok (require (drop o input) n (field_name info) truncated_array) _ h in
      cc
  parse_field-Canon bytes input o info o' v c b start h = bytes_case input o o' v info b h
  parse_field-Canon (slice t) input o info o' v c b start h =
      let (c1, c2) = &&_split (is_sized info && takes_input t none) (is_codable t none) c in
      slice_case t input o o' v info b
        (λ inner at at' x ib inside one. parse_field-Canon t inner at none at' x c2 ib inside one) h
  parse_field-Canon (struct fs) input o info o' v c b start h =
      let (seen, read, checked) = parse_struct fs input o o' v info h in
      struct_case fs input o o' v info seen checked
        (parse_fields-Canon fs input o [] [] o' seen v c b start read)
  parse_field-Canon (named_byte_array n) input o info o' v c b start h = cc
  parse_field-Canon named_bytes input o info o' v c b start h = cc
  parse_field-Canon other input o info o' v c b start h = cc

  parse_fields-Canon :
      (fs : Fields) (input : List ℕ) (o : ℕ) (enums : Map ℕ) (seen : Map Bool) (o' : ℕ)
      (seen' : Map Bool) (vs : FieldVals fs)
      → fields_are_codable fs ≡ true
      → All IsByte input
      → o ≤ length input
      → parse_fields fs input o enums seen ≡ ok (o', seen', vs)
      → CanonFields fs input o enums seen o' seen' vs
  parse_fields-Canon done input o enums seen o' seen' vs c b start h =
      let same : seen ≡ seen' = ground arith in
      let ends : o ≡ o' = ground arith in
      record {
        out = [];
        valid = tt;
        written = ap (λ (m : Map Bool). ok ([], m)) same;
        read = ap (λ (k : ℕ). drop k input) ends;
      }
  parse_fields-Canon (field name tag t fs) input o enums seen o' seen' vs c b start h =
      let k : Taken name tag t fs input o enums seen o' seen' vs =
        parse_fields_field name tag t fs input o enums seen o' seen' vs h in
      let (c1, c2) =
        &&_split (is_codable t (info_of (field_tag_to_field_info tag name))) (fields_are_codable fs)
          c in
      field_case name tag t fs input o enums seen o' seen' vs k
        (parse_field-Canon t input o (some k.i) k.o' vs.0 (rw k.tagged at c1) b start k.first)
        (parse_fields-Canon fs input k.o' (remember name (enum_value t vs.0) enums) seen o' seen'
          vs.1 c2 b (parse_field-Within t input o (some k.i) k.o' vs.0 start k.first).inside
          k.others)
  parse_fields-Canon (pointer name tag t fs) input o enums seen o'' seen'' vs c b start h =
      let (i, chosen, seen', tagged, select, choice, taken) =
        parse_fields_pointer name tag t fs input o enums seen o'' seen'' vs h in
      let (c1, c2) =
        &&_split (is_codable t (info_of (field_tag_to_field_info tag name))) (fields_are_codable fs)
          c in
      select_case name tag t fs input o enums i seen seen' o'' seen'' vs.0 vs.1 chosen tagged select
        choice
        (λ o' v one. (
          (parse_field-Within t input o (some i) o' v start one).inside,
          parse_field-Canon t input o (some i) o' v (rw tagged at c1) b start one,
        ))
        (λ o' inside rest.
          parse_fields-Canon fs input o' enums seen' o'' seen'' vs.1 c2 b inside rest)
        start taken
  parse_fields-Canon (hidden name tag t fs) input o enums seen o' seen' vs c b start h = cc
  parse_fields-Canon (hidden_pointer name tag t fs) input o enums seen o' seen' vs c b start h = cc

-- The encoding is canonical: what Unmarshal accepts, for a type as in the round trip and from bytes,
-- is a value of the type, and Marshal writes it as the very bytes that were read, in front of those
-- that are left.
pub marshal-unmarshal_params :
    (t : GoType) (params : Text) (b : List ℕ) (v : Val t) (rest : List ℕ)
    → is_codable t (info_of (field_tag_to_field_info params [])) ≡ true
    → All IsByte b
    → unmarshal_with_params t b params ≡ ok (v, rest)
    → IsVal t v × ((bs : List ℕ) × (marshal_with_params t v params ≡ ok bs) × (b ≡ bs ++ rest))
unfolding unmarshal_with_params marshal_with_params
marshal-unmarshal_params t params b v rest c small h =
    let (info, tagged, h1) = >>=-eq-ok (field_tag_to_field_info params []) _ h in
    let (r, read, h2) = >>=-eq-ok (parse_field t b 0 info) _ h1 in
    let e : ◌≡◌ {A = Val t × List ℕ} (r.1, drop r.0 b) (v, rest) = ok_inj h2 in
    let k : Canon t b 0 r.0 info r.1 =
      parse_field-Canon t b 0 info r.0 r.1 (rw tagged at c) small (omega arith) read in
    subst
      (λ (p : Val t × List ℕ).
        IsVal t p.0
        × ((bs : List ℕ) × (marshal_with_params t p.0 params ≡ ok bs) × (b ≡ bs ++ p.1)))
      e (k.valid, (k.out, rw tagged k.written, k.read))
