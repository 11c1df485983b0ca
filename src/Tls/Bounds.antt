-- ===== src/Tls/Bounds.antt =====
-- tls/tls.go: how far `parseField` reads.
use certificate_transparency.Prelude.{
  ℕ, ◌+◌, ◌≤◌, ◌<◌, ◌≡◌, inl, inr, sym, ap, ◌∙◌, Bool, true, false, ◌||◌, ||_split, ltb→lt, Option,
  some, List, [], ◌++◌, ltb, tests, arith, length, take, drop, inl, inr, take-append-drop,
  length-drop,
}
use certificate_transparency.Prelude.Text.{Text, Map}
use certificate_transparency.Prelude.Outcome.{ok, ◌>>◌, >>=-eq-ok, ok_inj}
use certificate_transparency.Tls.Taken.{
  read_fixed, parse_enum, Vector, parse_bytes, parse_slice, parse_struct, Taken, parse_fields_field,
}
use certificate_transparency.Tls.Chosen.{TakenSelect, parse_fields_pointer}
use certificate_transparency.Tls.Hidden.{
  parse_fields_hidden, parse_fields_hidden_pointer, parse_named_array, parse_named_bytes,
}
use certificate_transparency.Tls.Tag.{
  truncated_array, Message, FieldInfo, field_name, field_tag_to_field_info,
}
use certificate_transparency.Tls.Types.{
  GoType, Fields, uint8, uint16, uint24, uint32, uint64, enum, byte_array, array, bytes, slice,
  named_byte_array, named_bytes, struct, other, done, field, pointer, hidden, hidden_pointer, Val,
  FieldVals,
}
use certificate_transparency.Tls.Parse.{
  unmarshal_with_params, require, parse_field, parse_fields, read_var_uint, enum_value, remember,
}
use certificate_transparency.Tls.Width.{read_sized_parts}
use certificate_transparency.Tls.Codable.{is_wide, fields_take_input, takes_input}

pub record Within (input : List ℕ) (o o' : ℕ) (wide : Bool) : Type 0 where
  pub forward : o ≤ o'
  pub inside : o' ≤ length input
  pub moves : wide ≡ true → o < o'

fixed_Within :
    {A : Type 0} (k : ℕ) (name : Text) (m : Message) (input : List ℕ) (o o' : ℕ) (x v : A)
    → o ≤ length input
    → ◌>>◌ {B = ℕ × A} (require (drop o input) k name m) (ok (o + k, x)) ≡ ok (o', v)
    → Within input o o' (ltb 0 k)
fixed_Within k name m input o o' x v start h =
    let (long, ends, value) = read_fixed k name m input o o' x v h in
    record {
      forward = omega arith;
      inside = omega (arith, length-drop o input);
      moves = λ wide. omega (arith, ltb→lt 0 k wide);
    }

sized_Within :
    (input : List ℕ) (o o' v : ℕ) (i : FieldInfo)
    → o ≤ length input
    → read_var_uint (drop o input) (some i) ≡ ok v
    → o + i.count ≤ length input
unfolding read_var_uint
sized_Within input o o' v i start h =
    omega (arith, (read_sized_parts (drop o input) i v h).1, length-drop o input)

Vector-Within :
    {input : List ℕ} {o o' : ℕ} {info : Option FieldInfo} {inner : List ℕ}
    → o ≤ length input
    → Vector input o o' info inner
    → Within input o o' (is_wide info)
Vector-Within {input} {o} {o'} {info} start v =
    let width : o + v.i.count ≤ length input = sized_Within input o o' v.datalen v.i start v.size in
    record {
      forward = omega (arith, v.ends);
      inside = omega (arith, v.ends, v.long, length-drop (o + v.i.count) input);
      moves = λ w. moving w;
    }
  where
    moving : is_wide info ≡ true → o < o'
    moving w = omega (tests, v.ends, ltb→lt 0 v.i.count (rw v.tagged at w))

enum_Within :
    (input : List ℕ) (o o' v : ℕ) (info : Option FieldInfo)
    → o ≤ length input
    → ((i : FieldInfo) × (info ≡ some i)
        × (read_var_uint (drop o input) (some i) ≡ ok v)
        × (o + i.count ≡ o'))
    → Within input o o' (is_wide info)
enum_Within input o o' v info start (i, tagged, read, ends) =
    let width : o + i.count ≤ length input = sized_Within input o o' v i start read in
    record { forward = omega arith; inside = omega arith; moves = λ w. moving w }
  where
    moving : is_wide info ≡ true → o < o'
    moving w = omega (tests, ltb→lt 0 i.count (rw tagged at w))

-- A step and then the rest.
then_Within :
    {input : List ℕ} {o o' o'' : ℕ} {a b : Bool}
    → Within input o o' a
    → Within input o' o'' b
    → Within input o o'' (a || b)
then_Within {input} {o} {o'} {o''} {a} {b} v w = record {
  forward = omega (arith, v.forward, w.forward);
  inside = w.inside;
  moves = λ h. elim (||_split a b h) [
    | inl ha ↦ omega (arith, v.moves ha, w.forward)
    | inr hb ↦ omega (arith, v.forward, w.moves hb)
  ];
}

select_Within :
    (t : GoType) (fs : Fields) (input : List ℕ) (o : ℕ) (enums : Map ℕ) (i : FieldInfo)
    (seen' : Map Bool) (o'' : ℕ) (seen'' : Map Bool) (head : Option (Val t)) (tail : FieldVals fs)
    (c : Bool)
    → o ≤ length input
    → ((o' : ℕ) (v : Val t)
        → parse_field t input o (some i) ≡ ok (o', v)
        → Within input o o' (takes_input t (some i)))
    → ((o' : ℕ)
        → o' ≤ length input
        → parse_fields fs input o' enums seen' ≡ ok (o'', seen'', tail)
        → Within input o' o'' (fields_take_input fs))
    → TakenSelect t fs input o enums i seen' o'' seen'' head tail c
    → Within input o o'' (fields_take_input fs)
select_Within t fs input o enums i seen' o'' seen'' head tail false start one rest k =
    rest o start k.1
select_Within t fs input o enums i seen' o'' seen'' head tail true start one rest k =
    let first : Within input o k.1 (takes_input t (some i)) = one k.1 k.0 k.3 in
    let others : Within input k.1 o'' (fields_take_input fs) = rest k.1 first.inside k.4 in
    record {
      forward = omega (arith, first.forward, others.forward);
      inside = others.inside;
      moves = λ w. omega (arith, first.forward, others.moves w);
    }

mutual
  unfolding parse_field takes_input

  pub parse_field-Within :
      (t : GoType) (input : List ℕ) (o : ℕ) (info : Option FieldInfo) (o' : ℕ) (v : Val t)
      → o ≤ length input
      → parse_field t input o info ≡ ok (o', v)
      → Within input o o' (takes_input t info)
  parse_field-Within uint8 input o info o' v start h = fixed_Within 1 _ _ input o o' _ v start h
  parse_field-Within uint16 input o info o' v start h = fixed_Within 2 _ _ input o o' _ v start h
  parse_field-Within uint24 input o info o' v start h = fixed_Within 3 _ _ input o o' _ v start h
  parse_field-Within uint32 input o info o' v start h = fixed_Within 4 _ _ input o o' _ v start h
  parse_field-Within uint64 input o info o' v start h = fixed_Within 8 _ _ input o o' _ v start h
  parse_field-Within enum input o info o' v start h =
      enum_Within input o o' v info start (parse_enum input o o' v info h)
  parse_field-Within (byte_array n) input o info o' v start h =
      fixed_Within n _ _ input o o' _ v start h
  parse_field-Within (array n) input o info o' v start h =
      let (u, long, e) =
        >>=-eq-ok (require (drop o input) n (field_name info) truncated_array) _ h in
      cc
  parse_field-Within bytes input o info o' v start h =
      Vector-Within start (parse_bytes input o o' v info h)
  parse_field-Within (slice t) input o info o' v start h =
      Vector-Within start (parse_slice t input o o' v info h).1
  parse_field-Within (struct fs) input o info o' v start h =
      let (seen, read, checked) = parse_struct fs input o o' v info h in
      parse_fields-Within fs input o [] [] o' seen v start read
  parse_field-Within (named_byte_array n) input o info o' v start h =
      absurd (parse_named_array n input o info (o', v) h)
  parse_field-Within named_bytes input o info o' v start h =
      absurd (parse_named_bytes input o info (o', v) h)
  parse_field-Within other input o info o' v start h = cc

  pub parse_fields-Within :
      (fs : Fields) (input : List ℕ) (o : ℕ) (enums : Map ℕ) (seen : Map Bool) (o' : ℕ)
      (seen' : Map Bool) (vs : FieldVals fs)
      → o ≤ length input
      → parse_fields fs input o enums seen ≡ ok (o', seen', vs)
      → Within input o o' (fields_take_input fs)
  parse_fields-Within done input o enums seen o' seen' vs start h =
      let same : o ≡ o' = ground arith in
      record { forward = omega arith; inside = omega arith; moves = λ w. cc }
  parse_fields-Within (field name tag t fs) input o enums seen o' seen' vs start h =
      let k : Taken name tag t fs input o enums seen o' seen' vs =
        parse_fields_field name tag t fs input o enums seen o' seen' vs h in
      let first : Within input o k.o' (takes_input t (some k.i)) =
        parse_field-Within t input o (some k.i) k.o' vs.0 start k.first in
      let others : Within input k.o' o' (fields_take_input fs) =
        parse_fields-Within fs input k.o' (remember name (enum_value t vs.0) enums) seen o' seen'
          vs.1 first.inside k.others in
      rw k.tagged (then_Within first others)
  parse_fields-Within (pointer name tag t fs) input o enums seen o'' seen'' vs start h =
      let (i, c, seen', tagged, select, choice, taken) =
        parse_fields_pointer name tag t fs input o enums seen o'' seen'' vs h in
      select_Within t fs input o enums i seen' o'' seen'' vs.0 vs.1 c start
        (λ o' v p. parse_field-Within t input o (some i) o' v start p)
        (λ o' p q. parse_fields-Within fs input o' enums seen' o'' seen'' vs.1 p q) taken
  parse_fields-Within (hidden name tag t fs) input o enums seen o' seen' vs start h =
      parse_fields-Within fs input o enums seen o' seen' vs.1 start
        (parse_fields_hidden name tag t fs input o enums seen o' seen' vs h)
  parse_fields-Within (hidden_pointer name tag t fs) input o enums seen o' seen' vs start h =
      absurd (parse_fields_hidden_pointer name tag t fs input o enums seen (o', seen', vs) h)

-- What Unmarshal returns as the rest is the end of its input: it reads no byte behind the input and
-- gives back all that it did not read, for any type and any parameters.
pub unmarshal-suffix :
    (t : GoType) (params : Text) (b : List ℕ) (v : Val t) (rest : List ℕ)
    → unmarshal_with_params t b params ≡ ok (v, rest)
    → (front : List ℕ) × (b ≡ front ++ rest)
unfolding unmarshal_with_params
unmarshal-suffix t params b v rest h =
    let (info, tagged, h1) = >>=-eq-ok (field_tag_to_field_info params []) _ h in
    let (r, read, same) = >>=-eq-ok (parse_field t b 0 info) _ h1 in
    let left : drop r.0 b ≡ rest = ap (λ (z : Val t × List ℕ). z.1) (ok_inj same) in
    (take r.0 b, sym (take-append-drop r.0 b) ∙ ap (λ z. take r.0 b ++ z) left)
