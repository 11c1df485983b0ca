-- ===== src/Tls/Hidden.antt =====
-- tls/tls.go: `parseField` behind a field that is not exported returns only where it read nothing.
use certificate_transparency.Prelude.{
  ℕ, ◌≡◌, ◌+◌, ap, ◌∙◌, Bool, Option, some, List, [], arith, drop,
}
use certificate_transparency.Prelude.Text.{Text, Map}
use certificate_transparency.Prelude.Outcome.{ok, panic, ◌>>=◌, ◌>>◌, >>=-eq-ok, ok_inj}
use certificate_transparency.Tls.Tag.{
  FieldInfo, Result, field_name, field_tag_to_field_info, truncated_array, truncated_slice,
}
use certificate_transparency.Tls.Types.{
  GoType, Fields, uint8, uint16, uint24, uint32, uint64, enum, byte_array, array, bytes, slice,
  named_byte_array, named_bytes, struct, other, done, field, pointer, hidden, hidden_pointer, Val,
  FieldVals,
}
use certificate_transparency.Tls.Parse.{
  require, parse_field, parse_fields, parse_hidden, parse_hidden_fields, read_var_uint,
  refuse_select, non_nil, need_selector, choose, count_of,
}

-- What panics behind a test is not returned.
never : {A B : Type 0} (r : Result A) (b : B) → (r >>= λ _. panic) ≡ ok b → ⊥
never r b h = let (x, e, p) = >>=-eq-ok r _ h in cc

never_vector :
    {B : Type 0} (input : List ℕ) (o : ℕ) (info : Option FieldInfo) (b : B)
    → (do
      datalen ← read_var_uint (drop o input) info
      count ← count_of info
      require (drop (o + count) input) datalen (field_name info) truncated_slice
      panic)
      ≡ ok b
    → ⊥
never_vector input o info b h =
    let (datalen, e1, h1) = >>=-eq-ok (read_var_uint (drop o input) info) _ h in
    let (count, e2, h2) = >>=-eq-ok (count_of info) _ h1 in
    never (require (drop (o + count) input) datalen (field_name info) truncated_slice) b h2

both_stay :
    (name tag : Text) (t : GoType) (fs : Fields) (input : List ℕ) (o o' : ℕ)
    (vs : Val t × FieldVals fs)
    → ((i : FieldInfo) (o1 : ℕ) (v : Val t) → parse_hidden t input o (some i) ≡ ok (o1, v) → o ≡ o1)
    → ((o1 : ℕ) → parse_hidden_fields fs input o1 ≡ ok (o', vs.1) → o1 ≡ o')
    → parse_hidden_fields (field name tag t fs) input o ≡ ok (o', vs)
    → o ≡ o'
unfolding parse_hidden_fields
both_stay name tag t fs input o o' vs one rest h =
    let (info, e1, h1) = >>=-eq-ok (field_tag_to_field_info tag name) _ h in
    let (i, e2, h2) = >>=-eq-ok (non_nil info) _ h1 in
    let (u, e3, h3) = >>=-eq-ok (refuse_select i []) _ h2 in
    let (r, e4, h4) = >>=-eq-ok (parse_hidden t input o (some i)) _ h3 in
    let (q, e5, h5) = >>=-eq-ok (parse_hidden_fields fs input r.0) _ h4 in
    let same : ◌≡◌ {A = ℕ × (Val t × FieldVals fs)} (q.0, (r.1, q.1)) (o', vs) = ok_inj h5 in
    one i r.0 r.1 e4 ∙ rest r.0 (e5 ∙ ap (λ (z : ℕ × (Val t × FieldVals fs)). ok (z.0, z.1.1)) same)

mutual
  unfolding parse_hidden

  parse_hidden-stays :
      (t : GoType) (input : List ℕ) (o : ℕ) (info : Option FieldInfo) (o' : ℕ) (v : Val t)
      → parse_hidden t input o info ≡ ok (o', v)
      → o ≡ o'
  parse_hidden-stays uint8 input o info o' v h = absurd (never _ _ h)
  parse_hidden-stays uint16 input o info o' v h = absurd (never _ _ h)
  parse_hidden-stays uint24 input o info o' v h = absurd (never _ _ h)
  parse_hidden-stays uint32 input o info o' v h = absurd (never _ _ h)
  parse_hidden-stays uint64 input o info o' v h = absurd (never _ _ h)
  parse_hidden-stays enum input o info o' v h = absurd (never _ _ h)
  parse_hidden-stays (struct fs) input o info o' v h = parse_hidden_fields-stays fs input o o' v h
  parse_hidden-stays (byte_array n) input o info o' v h = absurd (never _ _ h)
  parse_hidden-stays (named_byte_array n) input o info o' v h = absurd (never _ _ h)
  parse_hidden-stays (array n) input o info o' v h =
      let (u, long, e) =
        >>=-eq-ok (require (drop o input) n (field_name info) truncated_array) _ h in
      cc
  parse_hidden-stays bytes input o info o' v h = absurd (never_vector input o info _ h)
  parse_hidden-stays named_bytes input o info o' v h = absurd (never_vector input o info _ h)
  parse_hidden-stays (slice t) input o info o' v h = absurd (never_vector input o info _ h)
  parse_hidden-stays other input o info o' v h = cc

  parse_hidden_fields-stays :
      (fs : Fields) (input : List ℕ) (o o' : ℕ) (vs : FieldVals fs)
      → parse_hidden_fields fs input o ≡ ok (o', vs)
      → o ≡ o'
  parse_hidden_fields-stays done input o o' vs h = ground arith
  parse_hidden_fields-stays (field name tag t fs) input o o' vs h =
      both_stay name tag t fs input o o' vs
        (λ i o1 v one. parse_hidden-stays t input o (some i) o1 v one)
        (λ o1 rest. parse_hidden_fields-stays fs input o1 o' vs.1 rest) h
  parse_hidden_fields-stays (hidden name tag t fs) input o o' vs h =
      both_stay name tag t fs input o o' vs
        (λ i o1 v one. parse_hidden-stays t input o (some i) o1 v one)
        (λ o1 rest. parse_hidden_fields-stays fs input o1 o' vs.1 rest) h
  parse_hidden_fields-stays (pointer name tag t fs) input o o' vs h =
      let (info, e1, h1) = >>=-eq-ok (field_tag_to_field_info tag name) _ h in
      let (i, e2, h2) = >>=-eq-ok (non_nil info) _ h1 in
      let (u, e3, h3) = >>=-eq-ok (need_selector i) _ h2 in cc
  parse_hidden_fields-stays (hidden_pointer name tag t fs) input o o' vs h =
      let (info, e1, h1) = >>=-eq-ok (field_tag_to_field_info tag name) _ h in
      let (i, e2, h2) = >>=-eq-ok (non_nil info) _ h1 in
      let (u, e3, h3) = >>=-eq-ok (need_selector i) _ h2 in cc

-- A field that is not exported takes no input, and the others are read behind it.
pub parse_fields_hidden :
    (name tag : Text) (t : GoType) (fs : Fields) (input : List ℕ) (o : ℕ) (enums : Map ℕ)
    (seen : Map Bool) (o' : ℕ) (seen' : Map Bool) (vs : Val t × FieldVals fs)
    → parse_fields (hidden name tag t fs) input o enums seen ≡ ok (o', seen', vs)
    → parse_fields fs input o enums seen ≡ ok (o', seen', vs.1)
unfolding parse_fields
parse_fields_hidden name tag t fs input o enums seen o' seen' vs h =
    let (info, e1, h1) = >>=-eq-ok (field_tag_to_field_info tag name) _ h in
    let (i, e2, h2) = >>=-eq-ok (non_nil info) _ h1 in
    let (u, e3, h3) = >>=-eq-ok (refuse_select i enums) _ h2 in
    let (r, e4, h4) = >>=-eq-ok (parse_hidden t input o (some i)) _ h3 in
    let (q, e5, h5) = >>=-eq-ok (parse_fields fs input r.0 enums seen) _ h4 in
    let same : ◌≡◌ {A = ℕ × Map Bool × (Val t × FieldVals fs)} (q.0, q.1, (r.1, q.2))
        (o', seen', vs) =
      ok_inj h5 in
    rw (parse_hidden-stays t input o (some i) r.0 r.1 e4)
      (e5 ∙ ap (λ (z : ℕ × Map Bool × (Val t × FieldVals fs)). ok (z.0, z.1, z.2.1)) same)

-- A pointer that is not exported is never read.
pub parse_fields_hidden_pointer :
    (name tag : Text) (t : GoType) (fs : Fields) (input : List ℕ) (o : ℕ) (enums : Map ℕ)
    (seen : Map Bool) (r : ℕ × Map Bool × FieldVals (hidden_pointer name tag t fs))
    → parse_fields (hidden_pointer name tag t fs) input o enums seen ≡ ok r
    → ⊥
unfolding parse_fields
parse_fields_hidden_pointer name tag t fs input o enums seen r h =
    let (info, e1, h1) = >>=-eq-ok (field_tag_to_field_info tag name) _ h in
    let (i, e2, h2) = >>=-eq-ok (non_nil info) _ h1 in
    let (u, e3, h3) = >>=-eq-ok (need_selector i) _ h2 in never (choose i enums seen) r h3

-- Bytes of a named type are never read.
pub parse_named_array :
    (n : ℕ) (input : List ℕ) (o : ℕ) (info : Option FieldInfo) (r : ℕ × List ℕ)
    → parse_field (named_byte_array n) input o info ≡ ok r
    → ⊥
unfolding parse_field
parse_named_array n input o info r h =
    never (require (drop o input) n (field_name info) truncated_array) r h

pub parse_named_bytes :
    (input : List ℕ) (o : ℕ) (info : Option FieldInfo) (r : ℕ × List ℕ)
    → parse_field named_bytes input o info ≡ ok r
    → ⊥
unfolding parse_field
parse_named_bytes input o info r h = never_vector input o info r h
