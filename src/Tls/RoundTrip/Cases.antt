-- ===== src/Tls/RoundTrip/Cases.antt =====
-- tls/tls.go: reading back each kind of type, given that its parts are read back.
use mathlib.Core.Path.{ap₂}
use certificate_transparency.Prelude.{
  ℕ, ◌+◌, ◌≤◌, ◌≡◌, refl, sym, ap, ◌∙◌, Bool, true, false, Option, none, some, List, [], ◌++◌,
  arith, length, take, drop, All, length-append, append_assoc,
}
use certificate_transparency.Prelude.Bytes.{map_byte, IsByte, be_bytes, length-be_bytes}
use certificate_transparency.Prelude.Text.{Text, Map}
use certificate_transparency.Prelude.Outcome.{ok}
use certificate_transparency.Tls.Tag.{Message, FieldInfo, field_name, field_tag_to_field_info}
use certificate_transparency.Tls.Types.{
  GoType, Fields, enum, byte_array, bytes, slice, struct, done, field, pointer, Val, FieldVals,
}
use certificate_transparency.Tls.Parse.{
  need_selector, parse_field, parse_fields, parse_elems, read_var_uint, enum_value, remember,
  choose, check_seen,
}
use certificate_transparency.Tls.Marshal.{marshal_field, marshal_fields}
use certificate_transparency.Tls.Width.{read_sized-be_bytes}
use certificate_transparency.Tls.Taken.{require_lem}
use certificate_transparency.Tls.Written.{
  marshal_enum, marshal_bytes, marshal_slice, Written, WrittenSelect,
}
use certificate_transparency.Tls.Bounds.{parse_field-Within}
use certificate_transparency.Tls.Codable.{IsVal, takes_input, is_sized}
use certificate_transparency.Tls.RoundTrip.Steps.{
  drop_read, take_read, Reads, sized_step, parse_elems-marshal_elems,
}

pub enum_case :
    (v : ℕ) (info : Option FieldInfo) (bs : List ℕ)
    → is_sized info ≡ true
    → marshal_field enum v info ≡ ok bs
    → Reads enum info bs v
unfolding parse_field
enum_case v info bs c m input o rest e =
    let (i, tagged, fits, written) = marshal_enum v info bs m in
    let set : i.count_set ≡ true = rw tagged at c in
    let read : read_var_uint (drop o input) (some i) ≡ ok v =
      rw (e, ← written) (read_sized-be_bytes i v rest set fits) in
    rw (tagged, read)
      (ap (λ (n : ℕ). ok (o + n, v)) (sym (length-be_bytes i.count v) ∙ ap length written))

pub bytes_case :
    (v : List ℕ) (info : Option FieldInfo) (bs : List ℕ)
    → is_sized info ≡ true
    → All IsByte v
    → marshal_field bytes v info ≡ ok bs
    → Reads bytes info bs v
unfolding parse_field
bytes_case v info bs c b m input o rest e =
    let (i, tagged, fits, written) = marshal_bytes v info bs m in
    let set : i.count_set ≡ true = rw tagged at c in
    let whole : be_bytes i.count (length v) ++ v ≡ bs =
      ap (◌++◌ (be_bytes i.count (length v))) (sym (map_byte v b)) ∙ written in
    let (size, long, body, ends) =
      sized_step i v (field_name (some i)) Message.truncated_slice input o rest set fits
        (e ∙ ap (λ (x : List ℕ). x ++ rest) (sym whole)) in
    rw (tagged, size, long, body)
      (ap (λ (n : ℕ). ok (n, v)) (ends ∙ ap (λ (x : List ℕ). o + length x) whole))

pub struct_case :
    (fs : Fields) (v : FieldVals fs) (info : Option FieldInfo) (bs : List ℕ) (seen : Map Bool)
    (input : List ℕ) (o : ℕ)
    → check_seen info seen ≡ ok tt
    → parse_fields fs input o [] [] ≡ ok (o + length bs, seen, v)
    → parse_field (struct fs) input o info ≡ ok (o + length bs, v)
unfolding parse_field
struct_case fs v info bs seen input o checked read = rw (read, checked)

pub slice_case :
    (t : GoType) (v : List (Val t)) (info : Option FieldInfo) (bs : List ℕ)
    → is_sized info ≡ true
    → takes_input t none ≡ true
    → All (IsVal t) v
    → ((x : Val t) (out : List ℕ)
        → IsVal t x
        → marshal_field t x none ≡ ok out
        → Reads t none out x)
    → marshal_field (slice t) v info ≡ ok bs
    → Reads (slice t) info bs v
unfolding parse_field
slice_case t v info bs c wide p each m input o rest e =
    let (i, inner, tagged, written, fits, whole) = marshal_slice t v info bs m in
    let set : i.count_set ≡ true = rw tagged at c in
    let (size, long, body, ends) =
      sized_step i inner (field_name (some i)) Message.truncated_slice input o rest set fits
        (e ∙ ap (λ (x : List ℕ). x ++ rest) (sym whole)) in
    let elems : parse_elems (λ io. parse_field t inner io none) (length inner) (length inner) 0
        ≡ ok v =
      parse_elems-marshal_elems (IsVal t) (λ io. parse_field t inner io none)
        (λ x. marshal_field t x none) inner
        (λ x out px w at more front. each x out px w inner at more front)
        (λ at at' x inside read. (parse_field-Within t inner at none at' x inside read).moves wide)
        v inner (length inner) 0 p written refl (omega arith) (omega arith) in
    rw (tagged, size, long, body, elems)
      (ap (λ (n : ℕ). ok (n, v)) (ends ∙ ap (λ (x : List ℕ). o + length x) whole))

pub array_case :
    (n : ℕ) (v : List ℕ) (info : Option FieldInfo) (bs : List ℕ)
    → length v ≡ n
    → v ≡ bs
    → Reads (byte_array n) info bs v
unfolding parse_field
array_case n v info bs size same input o rest e =
    let front : drop o input ≡ v ++ rest = e ∙ ap (λ (x : List ℕ). x ++ rest) (sym same) in
    let long : n ≤ length (drop o input) = omega (arith, ap length front, length-append v rest) in
    let body : take n (drop o input) ≡ v = rw front (take_read n v rest size) in
    rw (require_lem (drop o input) n (field_name info) Message.truncated_array long, body)
      (ap (λ (k : ℕ). ok (o + k, v)) (sym size ∙ ap length same))

pub done_case :
    (input : List ℕ) (o : ℕ) (enums : Map ℕ) (seen seen' : Map Bool) (vs : FieldVals done)
    (bs : List ℕ)
    → ◌≡◌ {A = List ℕ × Map Bool} ([], seen) (bs, seen')
    → parse_fields done input o enums seen ≡ ok (o + length bs, seen', vs)
unfolding parse_field
done_case input o enums seen seen' vs bs e =
    let none_read : ◌≡◌ {A = ℕ} o (o + length bs) =
      omega (arith, ap (λ (p : List ℕ × Map Bool). length p.0) e) in
    ap₂ (λ (k : ℕ) (s : Map Bool). ok (k, s, vs)) none_read (ap (λ (p : List ℕ × Map Bool). p.1) e)

pub field_case :
    (name tag : Text) (t : GoType) (fs : Fields) (vs : FieldVals (field name tag t fs))
    (enums : Map ℕ) (seen seen' : Map Bool) (bs : List ℕ)
    (w : Written name tag t fs vs enums seen seen' bs) (input : List ℕ) (o : ℕ)
    → parse_field t input o (some w.i) ≡ ok (o + length w.out, vs.0)
    → parse_fields fs input (o + length w.out) (remember name (enum_value t vs.0) enums) seen
      ≡ ok (o + length w.out + length w.rest, seen', vs.1)
    → parse_fields (field name tag t fs) input o enums seen ≡ ok (o + length bs, seen', vs)
unfolding parse_field
field_case name tag t fs vs enums seen seen' bs w input o first others =
    let size : o + length w.out + length w.rest ≡ o + length bs =
      omega (arith, ap length w.joined, length-append w.out w.rest) in
    rw (w.tagged, w.plain, first, others) (ap (λ (n : ℕ). ok (n, seen', vs)) size)

pub passed_case :
    (name tag : Text) (t : GoType) (fs : Fields) (tail : FieldVals fs) (enums : Map ℕ)
    (seen seen' seen'' : Map Bool) (i : FieldInfo) (input : List ℕ) (o o' : ℕ)
    → field_tag_to_field_info tag name ≡ ok (some i)
    → need_selector i ≡ ok tt
    → choose i enums seen ≡ ok (false, seen')
    → parse_fields fs input o enums seen' ≡ ok (o', seen'', tail)
    → parse_fields (pointer name tag t fs) input o enums seen ≡ ok (o', seen'', (none, tail))
unfolding parse_field
passed_case name tag t fs tail enums seen seen' seen'' i input o o' tagged select choice others =
    rw (tagged, select, choice, others)

pub chosen_case :
    (name tag : Text) (t : GoType) (fs : Fields) (v : Val t) (tail : FieldVals fs) (enums : Map ℕ)
    (seen seen' seen'' : Map Bool) (i : FieldInfo) (input : List ℕ) (o o' o'' : ℕ)
    → field_tag_to_field_info tag name ≡ ok (some i)
    → need_selector i ≡ ok tt
    → choose i enums seen ≡ ok (true, seen')
    → parse_field t input o (some i) ≡ ok (o', v)
    → parse_fields fs input o' enums seen' ≡ ok (o'', seen'', tail)
    → parse_fields (pointer name tag t fs) input o enums seen ≡ ok (o'', seen'', (some v, tail))
unfolding parse_field
chosen_case name tag t fs v tail enums seen seen' seen'' i input o o' o'' tagged select choice first
      others =
    rw (tagged, select, choice, first, others)

pub select_case :
    (name tag : Text) (t : GoType) (fs : Fields) (head : Option (Val t)) (tail : FieldVals fs)
    (enums : Map ℕ) (seen seen' seen'' : Map Bool) (bs : List ℕ) (i : FieldInfo) (c : Bool)
    → field_tag_to_field_info tag name ≡ ok (some i)
    → need_selector i ≡ ok tt
    → choose i enums seen ≡ ok (c, seen')
    → ((v : Val t) (out : List ℕ)
        → head ≡ some v
        → marshal_field t v (some i) ≡ ok out
        → Reads t (some i) out v)
    → ((out : List ℕ)
        → marshal_fields fs tail enums seen' ≡ ok (out, seen'')
        → (input : List ℕ) (o : ℕ) (rest : List ℕ) → drop o input ≡ out ++ rest
        → parse_fields fs input o enums seen' ≡ ok (o + length out, seen'', tail))
    → WrittenSelect t fs head tail enums i seen' seen'' bs c
    → (input : List ℕ) (o : ℕ) (rest : List ℕ) → drop o input ≡ bs ++ rest
    → parse_fields (pointer name tag t fs) input o enums seen
      ≡ ok (o + length bs, seen'', (head, tail))
select_case name tag t fs head tail enums seen seen' seen'' bs i false tagged select choice one
      others w input o rest e =
    passed_case name tag t fs tail enums seen seen' seen'' i input o (o + length bs) tagged select
      choice (others bs w.1 input o rest e)
    ∙ ap (λ (h : Option (Val t)). ok (o + length bs, seen'', (h, tail))) (sym w.0)
select_case name tag t fs head tail enums seen seen' seen'' bs i true tagged select choice one
      others w input o rest e =
    let (v, out, more, chosen, first, later, joined) = w in
    let front : drop o input ≡ out ++ (more ++ rest) =
      e ∙ ap (λ (x : List ℕ). x ++ rest) (sym joined) ∙ append_assoc out more rest in
    let behind : drop (o + length out) input ≡ more ++ rest =
      drop_read input o out (more ++ rest) front in
    let size : o + length out + length more ≡ o + length bs =
      omega (arith, ap length joined, length-append out more) in
    chosen_case name tag t fs v tail enums seen seen' seen'' i input o (o + length out)
      (o + length out + length more) tagged select choice
      (one v out chosen first input o (more ++ rest) front)
      (others more later input (o + length out) rest behind)
    ∙ ap₂ (λ (n : ℕ) (h : Option (Val t)). ok (n, seen'', (h, tail))) size (sym chosen)
