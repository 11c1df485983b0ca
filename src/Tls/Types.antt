-- ===== src/Tls/Types.antt =====
-- tls/tls.go: the Go types that the package tells apart by reflection, and their values.
-- A type is known by what `Type()`, `Kind()`, `Elem()`, `Len()` and the struct fields say of it.
use certificate_transparency.Prelude.{ℕ, Option, List}
use certificate_transparency.Prelude.Text.{Text}

-- `bytes` and `byte_array` have elements of type uint8, `named_bytes` and `named_byte_array` of another
-- type of kind Uint8, `slice` and `array` of another kind.
-- `enum` is any type of kind Uint64 but uint64 itself. `other` is any type of a kind that the
-- package does not support, a pointer outside a select among them.
mutual
  pub data GoType : Type 0 where
    uint8 uint16 uint24 uint32 uint64 enum : GoType
    byte_array : ℕ → GoType
    array : ℕ → GoType
    bytes : GoType
    named_byte_array : ℕ → GoType
    named_bytes : GoType
    slice : GoType → GoType
    struct : Fields → GoType
    other : GoType

  -- The fields of a struct, each with its name and its `tls` tag: `field` of a type that is no
  -- pointer, `pointer` of the type *T. These are exported; `hidden` and `hidden_pointer` are not, and
  -- reflection does not set them. A struct that is embedded counts as exported, since its own fields
  -- decide.
  pub data Fields : Type 0 where
    done : Fields
    field : Text → Text → GoType → Fields → Fields
    pointer : Text → Text → GoType → Fields → Fields
    hidden : Text → Text → GoType → Fields → Fields
    hidden_pointer : Text → Text → GoType → Fields → Fields

-- The values of a type. A nil pointer is `none`.
abbrev mutual
  pub Val : GoType → Type 0
  Val uint8 = ℕ
  Val uint16 = ℕ
  Val uint24 = ℕ
  Val uint32 = ℕ
  Val uint64 = ℕ
  Val enum = ℕ
  Val (byte_array n) = List ℕ
  Val (array n) = Unit {0}
  Val bytes = List ℕ
  Val (named_byte_array n) = List ℕ
  Val named_bytes = List ℕ
  Val (slice t) = List (Val t)
  Val (struct fs) = FieldVals fs
  Val other = Unit {0}

  pub FieldVals : Fields → Type 0
  FieldVals done = Unit {0}
  FieldVals (field name tag t fs) = Val t × FieldVals fs
  FieldVals (pointer name tag t fs) = Option (Val t) × FieldVals fs
  FieldVals (hidden name tag t fs) = Val t × FieldVals fs
  FieldVals (hidden_pointer name tag t fs) = Option (Val t) × FieldVals fs
