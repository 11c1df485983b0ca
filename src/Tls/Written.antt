-- ===== src/Tls/Written.antt =====
-- tls/tls.go: what a successful call of `marshalField` did on the way.
use certificate_transparency.Prelude.{
  ℕ, ◌%◌, ◌≡◌, refl, sym, ◌∙◌, Bool, true, false, Option, none, some, List, [], ◌∷◌, ◌++◌, arith,
  length, map,
}
use certificate_transparency.Prelude.Bytes.{be_bytes}
use certificate_transparency.Prelude.Text.{Text, Map}
use certificate_transparency.Prelude.Outcome.{ok, err, panic, diverge, ◌>>=◌, >>=-eq-ok, ok_inj}
use certificate_transparency.Tls.Tag.{FieldInfo, Result, field_tag_to_field_info, check}
use certificate_transparency.Tls.Types.{
  GoType, Fields, enum, bytes, slice, struct, field, pointer, Val, FieldVals,
}
use certificate_transparency.Tls.Parse.{
  need_selector, non_nil, enum_value, remember, refuse_select, choose, check_seen,
}
use certificate_transparency.Tls.Marshal.{
  source_of, marshal_field, marshal_fields, marshal_elems, put_sized, prefix,
}
use certificate_transparency.Tls.Width.{Fits, check→Fits, put_sized_lem}

pub marshal_elems_cons {ℓ} :
    {A : Type ℓ} (write : A → Result (List ℕ)) (v : A) (vs : List A) (bs : List ℕ)
    → marshal_elems write (v ∷ vs) ≡ ok bs
    → (out : List ℕ) × (more : List ℕ) × (write v ≡ ok out)
      × (marshal_elems write vs ≡ ok more)
      × (out ++ more ≡ bs)
unfolding marshal_elems
marshal_elems_cons write v vs bs h = ground arith

pub marshal_enum :
    (v : ℕ) (info : Option FieldInfo) (bs : List ℕ)
    → marshal_field enum v info ≡ ok bs
    → (i : FieldInfo) × (info ≡ some i) × Fits i v × (be_bytes i.count v ≡ bs)
unfolding marshal_field
marshal_enum v none bs h = cc
marshal_enum v (some i) bs h =
    let (u, passed, h1) = >>=-eq-ok (check i v (prefix i)) _ h in
    let fits : Fits i v = check→Fits i v (prefix i) passed in
    (i, refl, fits, ok_inj (sym (put_sized_lem i v fits.narrow) ∙ h1))

pub marshal_bytes :
    (v : List ℕ) (info : Option FieldInfo) (bs : List ℕ)
    → marshal_field bytes v info ≡ ok bs
    → (i : FieldInfo) × (info ≡ some i)
      × Fits i (length v)
      × (be_bytes i.count (length v) ++ map (λ b. b % 256) v ≡ bs)
unfolding marshal_field
marshal_bytes v none bs h = cc
marshal_bytes v (some i) bs h =
    let (size, sized, h1) = >>=-eq-ok (put_sized i (length v)) _ h in
    let (u, passed, h2) = >>=-eq-ok (check i (length v) (prefix i)) _ h1 in
    let fits : Fits i (length v) = check→Fits i (length v) (prefix i) passed in
    let written : be_bytes i.count (length v) ≡ size =
      ok_inj (sym (put_sized_lem i (length v) fits.narrow) ∙ sized) in
    (i, refl, fits, rw written (ok_inj h2))

pub marshal_slice :
    (t : GoType) (v : List (Val t)) (info : Option FieldInfo) (bs : List ℕ)
    → marshal_field (slice t) v info ≡ ok bs
    → (i : FieldInfo) × (inner : List ℕ) × (info ≡ some i)
      × (marshal_elems (λ x. marshal_field t x none) v ≡ ok inner)
      × Fits i (length inner)
      × (be_bytes i.count (length inner) ++ inner ≡ bs)
unfolding marshal_field
marshal_slice t v none bs h = cc
marshal_slice t v (some i) bs h =
    let (inner, written, h1) = >>=-eq-ok (marshal_elems (λ x. marshal_field t x none) v) _ h in
    let (u, passed, h2) = >>=-eq-ok (check i (length inner) (prefix i)) _ h1 in
    let (size, sized, h3) = >>=-eq-ok (put_sized i (length inner)) _ h2 in
    let fits : Fits i (length inner) = check→Fits i (length inner) (prefix i) passed in
    let width : be_bytes i.count (length inner) ≡ size =
      ok_inj (sym (put_sized_lem i (length inner) fits.narrow) ∙ sized) in
    (i, inner, refl, written, fits, rw width (ok_inj h3))

pub marshal_struct :
    (fs : Fields) (v : FieldVals fs) (info : Option FieldInfo) (bs : List ℕ)
    → marshal_field (struct fs) v info ≡ ok bs
    → (seen : Map Bool) × (marshal_fields fs v [] [] ≡ ok (bs, seen))
      × (check_seen info seen ≡ ok tt)
unfolding marshal_field
marshal_struct fs v info bs h =
    let (r, hr, h1) = >>=-eq-ok (marshal_fields fs v [] []) _ h in
    let (u, hu, h2) = >>=-eq-ok (check_seen info r.1) _ h1 in (r.1, ground arith, ground arith)

-- A field that is written, with the information of its tag.
pub record Written (name tag : Text) (t : GoType) (fs : Fields)
    (vs : FieldVals (field name tag t fs)) (enums : Map ℕ) (seen seen' : Map Bool) (bs : List ℕ)
    : Type 0 where
  pub i : FieldInfo
  pub out : List ℕ
  pub rest : List ℕ
  pub tagged : field_tag_to_field_info tag name ≡ ok (some i)
  pub plain : refuse_select i enums ≡ ok tt
  pub first : marshal_field t vs.0 (some i) ≡ ok out
  pub others :
      marshal_fields fs vs.1 (remember name (enum_value t vs.0) enums) seen ≡ ok (rest, seen')
  pub joined : out ++ rest ≡ bs

-- A select field is passed over, with nothing written, or written as the chosen one.
abbrev pub WrittenSelect :
    (t : GoType) (fs : Fields)
    → Option (Val t)
    → FieldVals fs
    → Map ℕ
    → FieldInfo
    → Map Bool
    → Map Bool
    → List ℕ
    → Bool
    → Type 0
WrittenSelect t fs head tail enums i seen' seen'' bs false =
    (head ≡ none) × (marshal_fields fs tail enums seen' ≡ ok (bs, seen''))
WrittenSelect t fs head tail enums i seen' seen'' bs true =
    (v : Val t) × (out : List ℕ) × (rest : List ℕ) × (head ≡ some v)
    × (marshal_field t v (some i) ≡ ok out)
    × (marshal_fields fs tail enums seen' ≡ ok (rest, seen''))
    × (out ++ rest ≡ bs)

-- The common first lines of the struct loop, here and in `parseField`.
pub tagged_info :
    {A : Type 0} (r : Result (Option FieldInfo)) (f : FieldInfo → Result A) {a : A}
    → (r >>= λ info. non_nil info >>= f) ≡ ok a
    → (i : FieldInfo) × (r ≡ ok (some i)) × (f i ≡ ok a)
tagged_info (ok (some i)) f h = (i, refl, h)
tagged_info (ok none) f h = cc
tagged_info (err e) f h = cc
tagged_info panic f h = cc
tagged_info diverge f h = cc

pub marshal_fields_field :
    (name tag : Text) (t : GoType) (fs : Fields) (vs : FieldVals (field name tag t fs))
    (enums : Map ℕ) (seen seen' : Map Bool) (bs : List ℕ)
    → marshal_fields (field name tag t fs) vs enums seen ≡ ok (bs, seen')
    → Written name tag t fs vs enums seen seen' bs
unfolding marshal_field
marshal_fields_field name tag t fs vs enums seen seen' bs h =
    let (i, tagged, h1) = tagged_info (field_tag_to_field_info tag name) _ h in
    let (u, plain, h2) = >>=-eq-ok (refuse_select i enums) _ h1 in
    let (out, first, h3) = >>=-eq-ok (marshal_field t vs.0 (some i)) _ h2 in
    let (r, others, h4) =
      >>=-eq-ok (marshal_fields fs vs.1 (remember name (enum_value t vs.0) enums) seen) _ h3 in
    record {
      i = i;
      out = out;
      rest = r.0;
      tagged = tagged;
      plain = plain;
      first = first;
      others = ground arith;
      joined = ground arith;
    }

write_select :
    (t : GoType) (fs : Fields) (c : Bool) (head : Option (Val t)) (tail : FieldVals fs)
    (enums : Map ℕ) (i : FieldInfo) (seen' seen'' : Map Bool) (bs : List ℕ)
    → ◌>>=◌ {B = List ℕ × Map Bool} (source_of i c head) (λ source. elim source [
      | none ↦ marshal_fields fs tail enums seen'
      | some v ↦ marshal_field t v (some i) >>= λ out.
          marshal_fields fs tail enums seen' >>= λ (rest, seen). ok (out ++ rest, seen)
    ])
      ≡ ok (bs, seen'')
    → WrittenSelect t fs head tail enums i seen' seen'' bs c
unfolding source_of
write_select t fs false none tail enums i seen' seen'' bs h = (refl, h)
write_select t fs false (some v) tail enums i seen' seen'' bs h = cc
write_select t fs true none tail enums i seen' seen'' bs h = cc
write_select t fs true (some v) tail enums i seen' seen'' bs h =
    let (out, first, h1) = >>=-eq-ok (marshal_field t v (some i)) _ h in
    let (r, others, h2) = >>=-eq-ok (marshal_fields fs tail enums seen') _ h1 in
    (v, out, r.0, refl, first, ground arith, ground arith)

pub marshal_fields_pointer :
    (name tag : Text) (t : GoType) (fs : Fields) (vs : FieldVals (pointer name tag t fs))
    (enums : Map ℕ) (seen seen'' : Map Bool) (bs : List ℕ)
    → marshal_fields (pointer name tag t fs) vs enums seen ≡ ok (bs, seen'')
    → (i : FieldInfo) × (c : Bool) × (seen' : Map Bool) × (field_tag_to_field_info tag name
        ≡ ok (some i))
      × (need_selector i ≡ ok tt)
      × (choose i enums seen ≡ ok (c, seen'))
      × WrittenSelect t fs vs.0 vs.1 enums i seen' seen'' bs c
unfolding marshal_field
marshal_fields_pointer name tag t fs vs enums seen seen'' bs h =
    let (i, tagged, h1) = tagged_info (field_tag_to_field_info tag name) _ h in
    let (u, select, h2) = >>=-eq-ok (need_selector i) _ h1 in
    let (r, choice, h3) = >>=-eq-ok (choose i enums seen) _ h2 in
    (i, r.0, r.1, tagged, select, choice, write_select t fs r.0 vs.0 vs.1 enums i r.1 seen'' bs h3)
