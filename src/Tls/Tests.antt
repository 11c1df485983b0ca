-- ===== src/Tls/Tests.antt =====
-- tls/tls.go: runs on concrete inputs, and the theorems on them.
use certificate_transparency.Prelude.{
  ℕ, ◌+◌, ◌*◌, ◌/◌, ◌≡◌, ◌≢◌, refl, true, none, some, List, [], ◌∷◌, ◌++◌, All, arith,
}
use certificate_transparency.Prelude.Bytes.{IsByte, be_value}
use certificate_transparency.Prelude.Text.{Text, codes}
use certificate_transparency.Prelude.Outcome.{ok, err, panic, diverge, Returns}
use certificate_transparency.Tls.Tag.{
  FieldInfo, zero_info, check, structural_error, syntax_error, value_too_large, truncated_uint16,
}
use certificate_transparency.Tls.Types.{
  GoType, uint16, enum, bytes, named_bytes, slice, struct, done, field, pointer, hidden, Val,
}
use certificate_transparency.Tls.Parse.{parse_field, unmarshal, unmarshal_with_params}
use certificate_transparency.Tls.Marshal.{marshal, marshal_field, marshal_with_params, prefix}
use certificate_transparency.Tls.Codable.{set_pointer, nil_pointer, IsVal, is_codable, is_proper}
use certificate_transparency.Tls.RoundTrip.{unmarshal-marshal_params}
use certificate_transparency.Tls.Canonical.{marshal-unmarshal_params}
use certificate_transparency.Tls.Total.{unmarshal-Returns}
use certificate_transparency.Tls.Unique.{marshal_params-prefix_free}
use certificate_transparency.Tls.Faults.{
  wide_enum_refused, byte_and_uint24, uint24_misread, empty_elements_diverge,
}

abbrev opaque : GoType
opaque = struct (field (codes "Data") (codes "minlen:1,maxlen:255") bytes done)

-- A choice between a byte string and a number, behind the tag that chooses.
abbrev choice : GoType
choice = struct (
    field (codes "Kind") (codes "maxval:255") enum (
      pointer (codes "Text") (codes "selector:Kind,val:0") opaque
        (pointer (codes "Number") (codes "selector:Kind,val:1") uint16 done)))

abbrev chosen : Val choice
chosen = (0, (some (7 ∷ 8 ∷ [], tt), (none, tt)))

marshal-choice : marshal choice chosen ≡ ok (0 ∷ 2 ∷ 7 ∷ 8 ∷ [])
unfolding marshal
marshal-choice = refl

unmarshal-choice : unmarshal choice (1 ∷ 1 ∷ 2 ∷ 9 ∷ []) ≡ ok ((1, (none, (some 258, tt))), 9 ∷ [])
unfolding unmarshal check be_value
unmarshal-choice = refl

chosen-IsVal : IsVal choice chosen
chosen-IsVal = (
  omega arith,
  (
    set_pointer (IsVal opaque) (7 ∷ 8 ∷ [], tt) ((omega arith, (omega arith, tt)), tt),
    (nil_pointer (IsVal uint16), tt),
  ),
)

unmarshal-marshal_params_example :
    unmarshal_with_params choice ((0 ∷ 2 ∷ 7 ∷ 8 ∷ []) ++ (5 ∷ [])) [] ≡ ok (chosen, 5 ∷ [])
unfolding is_codable marshal_with_params
unmarshal-marshal_params_example =
    unmarshal-marshal_params choice chosen [] (0 ∷ 2 ∷ 7 ∷ 8 ∷ []) (5 ∷ []) refl chosen-IsVal refl

four_bytes : All IsByte (1 ∷ 1 ∷ 2 ∷ 9 ∷ [])
four_bytes = (omega arith, (omega arith, (omega arith, (omega arith, tt))))

marshal-unmarshal_params_example :
    IsVal choice (1, (none, (some 258, tt)))
    × ((bs : List ℕ) × (marshal_with_params choice (1, (none, (some 258, tt))) [] ≡ ok bs)
        × (1 ∷ 1 ∷ 2 ∷ 9 ∷ [] ≡ bs ++ (9 ∷ [])))
unfolding is_codable unmarshal_with_params check be_value
marshal-unmarshal_params_example =
    marshal-unmarshal_params choice [] (1 ∷ 1 ∷ 2 ∷ 9 ∷ []) (1, (none, (some 258, tt))) (9 ∷ [])
      refl four_bytes refl

unmarshal-Returns_example : Returns (unmarshal_with_params choice (1 ∷ 1 ∷ []) [])
unfolding is_proper
unmarshal-Returns_example = unmarshal-Returns choice [] (1 ∷ 1 ∷ []) refl

marshal_params-prefix_free_example : (◌≡◌ {A = ℕ} 258 258) × (◌≡◌ {A = List ℕ} (3 ∷ []) (3 ∷ []))
unfolding is_codable marshal_with_params
marshal_params-prefix_free_example =
    marshal_params-prefix_free uint16 258 258 [] (1 ∷ 2 ∷ []) (1 ∷ 2 ∷ []) (3 ∷ []) (3 ∷ []) refl
      (omega arith) (omega arith) refl refl refl

abbrev length_tag : Text
length_tag = codes "minlen:1,maxlen:16777215"

abbrev length_info : FieldInfo
length_info = record zero_info {
  count = 3;
  count_set = true;
  minlen = 1;
  maxlen = 16777215;
  name = codes "Data";
}

abbrev wide_info : FieldInfo
wide_info = record zero_info { count = 8; count_set = true; name = codes "Wide" }

wide_enum_refused_example :
    (marshal_field enum 3 (some wide_info)
      ≡ err (structural_error (prefix wide_info) value_too_large))
    × (parse_field enum (0 ∷ 0 ∷ 0 ∷ 0 ∷ 0 ∷ 0 ∷ 0 ∷ 3 ∷ []) 0 (some wide_info) ≢ ok (8, 3))
wide_enum_refused_example =
    wide_enum_refused wide_info 3 (0 ∷ 0 ∷ 0 ∷ 0 ∷ 0 ∷ 0 ∷ 0 ∷ 3 ∷ []) 0 8 3 (omega arith)

uint24_misread_example :
    (bs : List ℕ) × (marshal byte_and_uint24 (7, (258, tt)) ≡ ok bs)
    × (unmarshal byte_and_uint24 bs ≡ ok ((7, (7 * 65536 + 258 / 256, tt)), []))
    × (unmarshal byte_and_uint24 bs ≡ ok ((7, (258, tt)), []) → 258 ≡ 7 * 65793)
    × (258 ≡ 7 * 65793 → unmarshal byte_and_uint24 bs ≡ ok ((7, (258, tt)), []))
uint24_misread_example = uint24_misread 7 258 (omega arith) (omega arith)

-- A slice that a byte gives the length of, with elements that hold no field.
abbrev empties_tag : Text
empties_tag = codes "maxlen:255"

abbrev empties_info : FieldInfo
empties_info = record zero_info { count = 1; count_set = true; maxlen = 255 }

empty_elements_diverge_example :
    unmarshal_with_params (slice (struct done)) (2 ∷ 0 ∷ 0 ∷ []) empties_tag ≡ diverge
unfolding unmarshal_with_params check
empty_elements_diverge_example =
    empty_elements_diverge (struct done) empties_tag (2 ∷ 0 ∷ 0 ∷ []) empties_info 2 tt refl refl
      (omega arith) (omega arith) refl

-- A number behind a field that is not exported, and bytes of a type of their own.
abbrev private_number : GoType
private_number = struct (hidden (codes "number") [] uint16 done)

private_number-panic : unmarshal private_number (1 ∷ 2 ∷ []) ≡ panic
unfolding unmarshal
private_number-panic = refl

private_number-err :
    unmarshal private_number (1 ∷ []) ≡ err (syntax_error (codes "number") truncated_uint16)
unfolding unmarshal
private_number-err = refl

named_bytes-panic : unmarshal_with_params named_bytes (1 ∷ 9 ∷ []) empties_tag ≡ panic
unfolding unmarshal_with_params check
named_bytes-panic = refl
