-- ===== src/Tls/Faults.antt =====
-- tls/tls.go: what tags give, and where the code does something else than it means to.
use certificate_transparency.Prelude.{
  lt→ltb, ◌⊎◌, ◌≢◌, ◌*◌, ◌/◌, some_inj, ℕ, zero, suc, ◌+◌, ◌^◌, ◌≤◌, ◌<◌, ◌≡◌, inl, inr, ◌⊎◌, ap,
  sym, ◌∙◌, Option, none, some, List, [], ◌∷◌, arith, length, take, drop, inl, inr, length-take,
}
use certificate_transparency.Prelude.Bytes.{be_bytes, be_value}
use certificate_transparency.Prelude.Text.{codes, Text}
use certificate_transparency.Prelude.Outcome.{ok, err, diverge, ok_inj}
use mathlib.Core.List.{foldl}
use certificate_transparency.Tls.Taken.{require_lem, parse_enum}
use certificate_transparency.Tls.Tag.{
  finish_info, tag_clause, split_comma, byte_count, zero_info, structural_error, value_too_large,
  is_empty, truncated_slice, FieldInfo, field_tag_to_field_info, check, Result,
}
use certificate_transparency.Tls.Types.{
  GoType, uint8, uint24, enum, slice, struct, done, field, Val,
}
use certificate_transparency.Tls.Parse.{
  unmarshal, unmarshal_with_params, parse_field, parse_elems, read_var_uint,
}
use certificate_transparency.Tls.Marshal.{marshal, marshal_field, prefix}
use certificate_transparency.Tls.Width.{shl64_bytes, read_sized_parts}

byte_count-le : (x : ℕ) → byte_count x ≤ 8
unfolding byte_count
byte_count-le x = ground arith

-- Fewer bytes than byteCount counts do not hold the value.
pow-le_value : (x k : ℕ) → k < byte_count x → 1 ≤ k → 256 ^ k ≤ x
unfolding byte_count
pow-le_value x zero h pos = absurd (omega arith)
pow-le_value x (suc zero) h pos = ground arith
pow-le_value x (suc (suc zero)) h pos = ground arith
pow-le_value x (suc (suc (suc zero))) h pos = ground arith
pow-le_value x (suc (suc (suc (suc zero)))) h pos = ground arith
pow-le_value x (suc (suc (suc (suc (suc zero))))) h pos = ground arith
pow-le_value x (suc (suc (suc (suc (suc (suc zero)))))) h pos = ground arith
pow-le_value x (suc (suc (suc (suc (suc (suc (suc zero))))))) h pos = ground arith
pow-le_value x (suc (suc (suc (suc (suc (suc (suc (suc k)))))))) h pos =
    absurd (omega (arith, byte_count-le x))

-- The bytes that byteCount counts hold the value, no fewer do, and there are 1 to 8 of them.
pub byte_count_bounds :
    (x : ℕ)
    → x < 2 ^ 64
    → (1 ≤ byte_count x)
      × (byte_count x ≤ 8)
      × (x < 256 ^ byte_count x)
      × ((k : ℕ) → k < byte_count x → 1 ≤ k → 256 ^ k ≤ x)
unfolding byte_count
byte_count_bounds x h = (ground arith, byte_count-le x, ground arith, pow-le_value x)

finish_info-ok :
    (name : Text) (r : Option FieldInfo) (i : FieldInfo)
    → finish_info name r ≡ ok (some i)
    → (i.name ≡ name)
      × (i.selector ≡ []
          → (i ≡ record zero_info { name = name })
            ⊎ ((1 ≤ i.count) × (i.count ≤ 8) × (i.minlen ≤ i.maxlen) × (i.val ≡ 0)))
unfolding finish_info
finish_info-ok name none i h = (ground arith, λ e. inl (ground arith))
finish_info-ok name (some j) i h = (ground arith, λ e. inr (ground (arith, ap is_empty e)))

-- The information that a tag gives carries the field's name. Without a selector it is either the
-- empty one, of a tag with no clause, or its width is 1 to 8 bytes, its length range is not inverted
-- and it has no selector value.
pub field_tag_to_field_info-ok :
    (str name : Text) (i : FieldInfo)
    → field_tag_to_field_info str name ≡ ok (some i)
    → (i.name ≡ name)
      × (i.selector ≡ []
          → (i ≡ record zero_info { name = name })
            ⊎ ((1 ≤ i.count) × (i.count ≤ 8) × (i.minlen ≤ i.maxlen) × (i.val ≡ 0)))
unfolding field_tag_to_field_info
field_tag_to_field_info-ok str name i h =
    finish_info-ok name (foldl tag_clause none (split_comma str)) i h

wide_refused :
    (i : FieldInfo) (v : ℕ) (name : Text)
    → 8 ≤ i.count
    → check i v name ≡ err (structural_error name value_too_large)
unfolding check
wide_refused i v name h = ground (arith, shl64_bytes i.count)

-- A width of eight bytes or more lets no value pass: 1 << 64 is 0 on 64 bits. So an `Enum` tagged
-- size:8 is never written, and never read.
pub wide_enum_refused :
    (i : FieldInfo) (v : ℕ) (input : List ℕ) (o o' w : ℕ)
    → 8 ≤ i.count
    → (marshal_field enum v (some i) ≡ err (structural_error (prefix i) value_too_large))
      × (parse_field enum input o (some i) ≢ ok (o', w))
unfolding marshal_field read_var_uint
wide_enum_refused i v input o o' w h =
    (rw (wide_refused i v (prefix i) h), λ e. not_read (parse_enum input o o' w (some i) e))
  where
    not_read :
        (j : FieldInfo) × (some i ≡ some j)
          × (read_var_uint (drop o input) (some j) ≡ ok w)
          × (o + j.count ≡ o')
        → ⊥
    not_read (j, same, read, ends) = absurd (
        omega (
          arith,
          (read_sized_parts (drop o input) j w (read)).3.narrow,
          ap (λ (k : FieldInfo). k.count) (some_inj same),
        ))

-- A byte and then a `Uint24`.
abbrev pub byte_and_uint24 : GoType
byte_and_uint24 = struct (field (codes "Tag") [] uint8 (field (codes "Size") [] uint24 done))

read_back :
    (v w : ℕ)
    → v < 2 ^ 8
    → w < 2 ^ 24
    → unmarshal byte_and_uint24 (v ∷ be_bytes 3 w) ≡ ok ((v, (v * 65536 + w / 256, tt)), [])
unfolding unmarshal be_value be_bytes
read_back v w hv hw = ground arith

-- In a struct of a byte v and a `Uint24` w, the number is read from the start of the input: what
-- Marshal wrote comes back with v as the highest byte of the number and the lowest byte of w dropped,
-- and so as the values that were written exactly where each of the three bytes of w is v.
pub uint24_misread :
    (v w : ℕ)
    → v < 2 ^ 8
    → w < 2 ^ 24
    → (bs : List ℕ) × (marshal byte_and_uint24 (v, (w, tt)) ≡ ok bs)
      × (unmarshal byte_and_uint24 bs ≡ ok ((v, (v * 65536 + w / 256, tt)), []))
      × (unmarshal byte_and_uint24 bs ≡ ok ((v, (w, tt)), []) → w ≡ v * 65793)
      × (w ≡ v * 65793 → unmarshal byte_and_uint24 bs ≡ ok ((v, (w, tt)), []))
unfolding marshal
uint24_misread v w hv hw =
    let back = read_back v w hv hw in
    (
      v ∷ be_bytes 3 w,
      ground arith,
      back,
      (λ same.
          thrice (ap (λ (r : (ℕ × (ℕ × Unit {0})) × List ℕ). r.0.1.0) (ok_inj (sym back ∙ same)))),
      (λ e.
          let same : v * 65536 + w / 256 ≡ w = omega (arith, e) in
          back ∙ ap (λ (x : ℕ). ok ((v, (x, tt)), [])) same),
    )
  where
    thrice : v * 65536 + w / 256 ≡ w → w ≡ v * 65793
    thrice e = omega (arith, e)

-- Where nothing is taken, the loop does not move.
elems_stay :
    {A : Type 0} (parse : ℕ → Result (ℕ × A)) (v : A) (fuel size : ℕ)
    → 0 < size
    → parse 0 ≡ ok (0, v)
    → parse_elems parse fuel size 0 ≡ diverge
unfolding parse_elems
elems_stay parse v zero size h stays = rw (lt→ltb 0 size h)
elems_stay parse v (suc f) size h stays =
    rw (lt→ltb 0 size h, stays, parse_elems) (rw (elems_stay parse v f size h stays))

-- Unmarshal loops for ever on a slice that has a length of at least one byte and all of its bytes,
-- where the first element parses and takes no input.
pub empty_elements_diverge :
    (t : GoType) (params : Text) (input : List ℕ) (i : FieldInfo) (datalen : ℕ) (v : Val t)
    → field_tag_to_field_info params [] ≡ ok (some i)
    → read_var_uint input (some i) ≡ ok datalen
    → 0 < datalen
    → datalen ≤ length (drop i.count input)
    → parse_field t (take datalen (drop i.count input)) 0 none ≡ ok (0, v)
    → unmarshal_with_params (slice t) input params ≡ diverge
unfolding unmarshal_with_params parse_field
empty_elements_diverge t params input i datalen v tagged read pos long stays =
    let rest : List ℕ = drop i.count input in
    let inner : List ℕ = take datalen rest in
    let size : 0 < length inner = omega (arith, length-take datalen rest) in
    let origin : 0 + i.count ≡ i.count = omega arith in
    rw (
      tagged,
      read,
      origin,
      require_lem rest datalen i.name truncated_slice long,
      elems_stay (λ io. parse_field t inner io none) v (length inner) (length inner) size stays,
    )
