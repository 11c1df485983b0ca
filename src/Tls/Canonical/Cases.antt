-- ===== src/Tls/Canonical/Cases.antt =====
-- tls/tls.go: the bytes that were read, written again: each kind of type.
use certificate_transparency.Prelude.{
  some_inj, All-take, All-drop, ℕ, ◌+◌, ◌^◌, ◌≤◌, ◌<◌, ◌≡◌, sym, ap, subst, ◌∙◌, Bool, true, false,
  Option, none, some, List, [], ◌++◌, arith, length, take, drop, All, drop-drop, length-take,
  append_assoc,
}
use certificate_transparency.Prelude.Bytes.{map_byte, IsByte, be_bytes, be_value}
use certificate_transparency.Prelude.Text.{Text, Map}
use certificate_transparency.Prelude.Outcome.{ok, ◌>>◌}
use certificate_transparency.Tls.Taken.{
  read_fixed, parse_enum, Vector, parse_bytes, parse_slice, Taken,
}
use certificate_transparency.Tls.Chosen.{TakenSelect}
use certificate_transparency.Tls.Bounds.{parse_field-Within}
use certificate_transparency.Tls.Tag.{
  truncated_array, Message, FieldInfo, field_name, field_tag_to_field_info,
}
use certificate_transparency.Tls.Types.{
  GoType, Fields, enum, byte_array, bytes, slice, struct, field, pointer, Val, FieldVals,
}
use certificate_transparency.Tls.Parse.{
  need_selector, require, parse_field, parse_fields, enum_value, remember, choose, check_seen,
}
use certificate_transparency.Tls.Marshal.{source_of, marshal_field, marshal_fields, prefix}
use certificate_transparency.Tls.Width.{
  Fits→check, pow_le, be_bytes-read_sized, Fits, put_sized_lem,
}
use certificate_transparency.Tls.Codable.{IsVal, AreVals}
use certificate_transparency.Tls.Canonical.Steps.{
  Canon, cut_at, fixed_Canon, Vector-Canon, parse_elems-Canon,
}

-- A number of a fixed width that was read.
pub fixed_case :
    (k : ℕ) (name : Text) (m : Message) (input : List ℕ) (o o' v : ℕ)
    → All IsByte input
    → ◌>>◌ {B = ℕ × ℕ}
        (require (drop o input) k name m)
        (ok (o + k, be_value 0 (take k (drop o input))))
      ≡ ok (o', v)
    → (v < 256 ^ k) × (be_bytes k v ++ drop o' input ≡ drop o input)
fixed_case k name m input o o' v b h =
    let (long, ends, value) = read_fixed k name m input o o' _ v h in
    let (small, width) = fixed_Canon k input o b long in
    (rw value at small, rw (← value, width) (sym (cut_at input o k o' ends)))

pub enum_case :
    (input : List ℕ) (o o' v : ℕ) (info : Option FieldInfo)
    → All IsByte input
    → parse_field enum input o info ≡ ok (o', v)
    → Canon enum input o o' info v
unfolding marshal_field
enum_case input o o' v info b h =
    let (i, tagged, read, ends) = parse_enum input o o' v info h in
    let (j, same, set, fits, width) =
      be_bytes-read_sized (drop o input) (some i) v (All-drop IsByte o input b) read in
    let tag : j ≡ i = some_inj (sym same) in
    let fits' : Fits i v = subst (λ k. Fits k v) tag fits in
    record {
      out = be_bytes i.count v;
      valid = wide_enough i v fits';
      written = rw (tagged, Fits→check i v (prefix i) fits', put_sized_lem i v fits'.narrow);
      read =
          sym (
            subst
              (λ (k : FieldInfo). be_bytes k.count v ++ drop k.count (drop o input) ≡ drop o input)
              tag width)
          ∙ ap (λ (x : List ℕ). be_bytes i.count v ++ x)
              (drop-drop o i.count input ∙ ap (λ (k : ℕ). drop k input) ends);
    }
  where
    wide_enough : (i : FieldInfo) (v : ℕ) → Fits i v → v < 2 ^ 64
    wide_enough i v f = omega (arith, f.bounded, pow_le i.count f.narrow)

pub bytes_case :
    (input : List ℕ) (o o' : ℕ) (v : List ℕ) (info : Option FieldInfo)
    → All IsByte input
    → parse_field bytes input o info ≡ ok (o', v)
    → Canon bytes input o o' info v
unfolding marshal_field
bytes_case input o o' v info b h =
    let w : Vector input o o' info v = parse_bytes input o o' v info h in
    let (fits, valid, read) = Vector-Canon b w in
    let n : ℕ = length v in
    record {
      out = be_bytes w.i.count n ++ v;
      valid = valid;
      written =
          rw (w.tagged, put_sized_lem w.i n fits.narrow, Fits→check w.i n (prefix w.i) fits)
            (ap (λ (x : List ℕ). ok (be_bytes w.i.count n ++ x)) (map_byte v valid));
      read = read;
    }

pub array_case :
    (n : ℕ) (input : List ℕ) (o o' : ℕ) (v : List ℕ) (info : Option FieldInfo)
    → All IsByte input
    → parse_field (byte_array n) input o info ≡ ok (o', v)
    → Canon (byte_array n) input o o' info v
unfolding marshal_field parse_field
array_case n input o o' v info b h =
    let (long, ends, value) = read_fixed n (field_name info) truncated_array input o o' _ v h in
    let front_bytes : All IsByte (take n (drop o input)) =
      All-take IsByte n (drop o input) (All-drop IsByte o input b) in
    let valid : All IsByte v = subst (All IsByte) value front_bytes in
    record {
      out = v;
      valid = (omega (arith, ap length value, length-take n (drop o input)), valid);
      written = ap ok (map_byte v valid);
      read = cut_at input o n o' ends ∙ ap (λ (x : List ℕ). x ++ drop o' input) value;
    }

pub slice_case :
    (t : GoType) (input : List ℕ) (o o' : ℕ) (v : List (Val t)) (info : Option FieldInfo)
    → All IsByte input
    → ((inner : List ℕ) (at at' : ℕ) (x : Val t)
        → All IsByte inner
        → at ≤ length inner
        → parse_field t inner at none ≡ ok (at', x)
        → Canon t inner at at' none x)
    → parse_field (slice t) input o info ≡ ok (o', v)
    → Canon (slice t) input o o' info v
unfolding marshal_field
slice_case t input o o' v info b each h =
    let (inner, w, elems) = parse_slice t input o o' v info h in
    let (fits, inner_bytes, read) = Vector-Canon b w in
    let (valid, written) =
      parse_elems-Canon (IsVal t) (λ io. parse_field t inner io none) (λ x. marshal_field t x none)
        inner
        (λ at at' x inside one.
          let c : Canon t inner at at' none x = each inner at at' x inner_bytes inside one in
          (
            (parse_field-Within t inner at none at' x inside one).inside,
            c.valid,
            (c.out, c.written, c.read),
          ))
        (length inner) 0 v (omega arith) elems in
    let n : ℕ = length inner in
    record {
      out = be_bytes w.i.count n ++ inner;
      valid = valid;
      written =
          rw (
            w.tagged,
            written,
            Fits→check w.i n (prefix w.i) fits,
            put_sized_lem w.i n fits.narrow,
          );
      read = read;
    }

-- The fields of a struct that were read, with the same selectors seen.
pub record CanonFields (fs : Fields) (input : List ℕ) (o : ℕ) (enums : Map ℕ) (seen : Map Bool)
    (o' : ℕ) (seen' : Map Bool) (vs : FieldVals fs) : Type 0 where
  pub out : List ℕ
  pub valid : AreVals fs vs
  pub written : marshal_fields fs vs enums seen ≡ ok (out, seen')
  pub read : drop o input ≡ out ++ drop o' input

pub struct_case :
    (fs : Fields) (input : List ℕ) (o o' : ℕ) (v : FieldVals fs) (info : Option FieldInfo)
    (seen : Map Bool)
    → check_seen info seen ≡ ok tt
    → CanonFields fs input o [] [] o' seen v
    → Canon (struct fs) input o o' info v
unfolding marshal_field
struct_case fs input o o' v info seen checked c = record {
  out = c.out;
  valid = c.valid;
  written = rw (c.written, checked);
  read = c.read;
}

-- Two parts that stand one behind the other.
joined : (a b z : List ℕ) {x y : List ℕ} → x ≡ a ++ y → y ≡ b ++ z → x ≡ (a ++ b) ++ z
joined a b z {x} {y} p q = p ∙ ap (◌++◌ a) q ∙ sym (append_assoc a b z)

pub field_case :
    (name tag : Text) (t : GoType) (fs : Fields) (input : List ℕ) (o : ℕ) (enums : Map ℕ)
    (seen : Map Bool) (o'' : ℕ) (seen' : Map Bool) (vs : FieldVals (field name tag t fs))
    (k : Taken name tag t fs input o enums seen o'' seen' vs)
    → Canon t input o k.o' (some k.i) vs.0
    → CanonFields fs input k.o' (remember name (enum_value t vs.0) enums) seen o'' seen' vs.1
    → CanonFields (field name tag t fs) input o enums seen o'' seen' vs
unfolding marshal_field
field_case name tag t fs input o enums seen o'' seen' vs k c d = record {
  out = c.out ++ d.out;
  valid = (c.valid, d.valid);
  written = rw (k.tagged, k.plain, c.written, d.written);
  read = joined c.out d.out (drop o'' input) c.read d.read;
}

pub select_case :
    (name tag : Text) (t : GoType) (fs : Fields) (input : List ℕ) (o : ℕ) (enums : Map ℕ)
    (i : FieldInfo) (seen seen' : Map Bool) (o'' : ℕ) (seen'' : Map Bool) (head : Option (Val t))
    (tail : FieldVals fs) (c : Bool)
    → field_tag_to_field_info tag name ≡ ok (some i)
    → need_selector i ≡ ok tt
    → choose i enums seen ≡ ok (c, seen')
    → ((o' : ℕ) (v : Val t)
        → parse_field t input o (some i) ≡ ok (o', v)
        → (o' ≤ length input) × Canon t input o o' (some i) v)
    → ((o' : ℕ)
        → o' ≤ length input
        → parse_fields fs input o' enums seen' ≡ ok (o'', seen'', tail)
        → CanonFields fs input o' enums seen' o'' seen'' tail)
    → o ≤ length input
    → TakenSelect t fs input o enums i seen' o'' seen'' head tail c
    → CanonFields (pointer name tag t fs) input o enums seen o'' seen'' (head, tail)
unfolding marshal_field source_of
select_case name tag t fs input o enums i seen seen' o'' seen'' head tail false tagged select choice
      one rest start k =
    let d : CanonFields fs input o enums seen' o'' seen'' tail = rest o start k.1 in
    record {
      out = d.out;
      valid = ((λ v e. absurd (not_some v (sym k.0 ∙ e))), d.valid);
      written = rw (tagged, select, choice, k.0, d.written);
      read = d.read;
    }
  where
    not_some : (v : Val t) → none ≡ some v → ⊥
    not_some v e = cc
select_case name tag t fs input o enums i seen seen' o'' seen'' head tail true tagged select choice
      one rest start k =
    let (v, o', chosen, first, others) = k in
    let (inside, c) = one o' v first in
    let d : CanonFields fs input o' enums seen' o'' seen'' tail = rest o' inside others in
    record {
      out = c.out ++ d.out;
      valid = ((λ w e. subst (IsVal t) (some_inj (sym chosen ∙ e)) c.valid), d.valid);
      written = rw (tagged, select, choice, chosen, c.written, d.written);
      read = joined c.out d.out (drop o'' input) c.read d.read;
    }
