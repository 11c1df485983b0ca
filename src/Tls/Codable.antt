-- ===== src/Tls/Codable.antt =====
-- tls/tls.go: the values that a Go type has, and a test of the types whose encoding can be read.
use certificate_transparency.Prelude.{
  subst, some_inj, ◌<◌, ◌^◌, ◌≡◌, Bool, true, false, not, ◌&&◌, ◌||◌, Option, none, some, ltb,
  length, All,
}
use certificate_transparency.Prelude.Bytes.{IsByte}
use certificate_transparency.Prelude.Outcome.{ok}
use certificate_transparency.Tls.Tag.{Result, FieldInfo, is_empty, field_tag_to_field_info}
use certificate_transparency.Tls.Types.{
  GoType, Fields, uint8, uint16, uint24, uint32, uint64, enum, byte_array, array, bytes, slice,
  named_byte_array, named_bytes, struct, other, done, field, pointer, hidden, hidden_pointer, Val,
  FieldVals,
}

-- The numbers that a Go value of the type can hold; `Uint24` is a uint32.
abbrev mutual
  pub IsVal : (t : GoType) → Val t → Type 0
  IsVal uint8 v = v < 2 ^ 8
  IsVal uint16 v = v < 2 ^ 16
  IsVal uint24 v = v < 2 ^ 32
  IsVal uint32 v = v < 2 ^ 32
  IsVal uint64 v = v < 2 ^ 64
  IsVal enum v = v < 2 ^ 64
  IsVal (byte_array n) v = (length v ≡ n) × All IsByte v
  IsVal (array n) v = Unit {0}
  IsVal bytes v = All IsByte v
  IsVal (named_byte_array n) v = (length v ≡ n) × All IsByte v
  IsVal named_bytes v = All IsByte v
  IsVal (slice t) v = All (IsVal t) v
  IsVal (struct fs) v = AreVals fs v
  IsVal other v = Unit {0}

  pub AreVals : (fs : Fields) → FieldVals fs → Type 0
  AreVals done vs = Unit {0}
  AreVals (field name tag t fs) vs = IsVal t vs.0 × AreVals fs vs.1
  AreVals (pointer name tag t fs) vs = ((v : Val t) → vs.0 ≡ some v → IsVal t v) × AreVals fs vs.1
  AreVals (hidden name tag t fs) vs = IsVal t vs.0 × AreVals fs vs.1
  AreVals (hidden_pointer name tag t fs) vs =
      ((v : Val t) → vs.0 ≡ some v → IsVal t v) × AreVals fs vs.1

-- A pointer that is set, or nil, has the values that its target has.
pub set_pointer :
    {A : Type 0} (P : A → Type 0) (a : A)
    → P a
    → (b : A) → ◌≡◌ {A = Option A} (some a) (some b)
    → P b
set_pointer P a p b same = subst P (some_inj same) p

pub nil_pointer : {A : Type 0} (P : A → Type 0) (b : A) → ◌≡◌ {A = Option A} none (some b) → P b
nil_pointer P b same = cc

-- The width of a number or a length is set.
abbrev pub is_sized : Option FieldInfo → Bool
is_sized none = true
is_sized (some i) = i.count_set

abbrev pub is_wide : Option FieldInfo → Bool
is_wide none = true
is_wide (some i) = ltb 0 i.count

-- The information that a tag gives; a tag in error counts as one that gives none.
abbrev pub info_of : Result (Option FieldInfo) → Option FieldInfo
info_of (ok info) = info
info_of _ = none

-- Every successful parse takes input.
unfoldable mutual
  unfolding field_tag_to_field_info

  pub takes_input : GoType → Option FieldInfo → Bool
  takes_input enum info = is_wide info
  takes_input bytes info = is_wide info
  takes_input (slice t) info = is_wide info
  takes_input (byte_array n) info = ltb 0 n
  takes_input (struct fs) info = fields_take_input fs
  takes_input uint8 info = true
  takes_input _ info = true

  pub fields_take_input : Fields → Bool
  fields_take_input done = false
  fields_take_input (field name tag t fs) =
      takes_input t (info_of (field_tag_to_field_info tag name)) || fields_take_input fs
  fields_take_input (pointer name tag t fs) = fields_take_input fs
  fields_take_input (hidden name tag t fs) = fields_take_input fs
  fields_take_input (hidden_pointer name tag t fs) = fields_take_input fs

-- Every field has a name, as in Go, and is exported, every byte is of type uint8, and every slice
-- below has elements that take input.
unfoldable mutual
  unfolding takes_input

  pub is_proper : GoType → Bool
  is_proper (slice t) = takes_input t none && is_proper t
  is_proper (struct fs) = fields_are_proper fs
  is_proper (named_byte_array n) = false
  is_proper named_bytes = false
  is_proper uint8 = true
  is_proper _ = true

  pub fields_are_proper : Fields → Bool
  fields_are_proper done = true
  fields_are_proper (field name tag t fs) =
      not (is_empty name) && is_proper t && fields_are_proper fs
  fields_are_proper (pointer name tag t fs) =
      not (is_empty name) && is_proper t && fields_are_proper fs
  fields_are_proper (hidden name tag t fs) = false
  fields_are_proper (hidden_pointer name tag t fs) = false

-- No `Uint24` occurs, the width of each number and length is set, elements take input, fields are
-- exported, and bytes are of type uint8.
unfoldable mutual
  unfolding takes_input field_tag_to_field_info

  pub is_codable : GoType → Option FieldInfo → Bool
  is_codable uint24 info = false
  is_codable (named_byte_array n) info = false
  is_codable named_bytes info = false
  is_codable enum info = is_sized info
  is_codable bytes info = is_sized info
  is_codable (slice t) info = is_sized info && takes_input t none && is_codable t none
  is_codable (struct fs) info = fields_are_codable fs
  is_codable _ info = true

  pub fields_are_codable : Fields → Bool
  fields_are_codable done = true
  fields_are_codable (field name tag t fs) =
      is_codable t (info_of (field_tag_to_field_info tag name)) && fields_are_codable fs
  fields_are_codable (pointer name tag t fs) =
      is_codable t (info_of (field_tag_to_field_info tag name)) && fields_are_codable fs
  fields_are_codable (hidden name tag t fs) = false
  fields_are_codable (hidden_pointer name tag t fs) = false
