-- ===== src/Tls/Chosen.antt =====
-- tls/tls.go: what `parseField` did on a select field of a struct.
use certificate_transparency.Prelude.{
  ℕ, ◌≡◌, sym, ap, ◌∙◌, Bool, true, false, Option, none, some, List,
}
use certificate_transparency.Prelude.Text.{Text, Map}
use certificate_transparency.Prelude.Outcome.{ok, ◌>>=◌, >>=-eq-ok, ok_inj}
use certificate_transparency.Tls.Written.{tagged_info}
use certificate_transparency.Tls.Tag.{FieldInfo, Result, field_tag_to_field_info}
use certificate_transparency.Tls.Types.{GoType, Fields, pointer, Val, FieldVals}
use certificate_transparency.Tls.Parse.{need_selector, parse_field, parse_fields, choose}

-- A select field is passed over and made nil, or read as the chosen one.
abbrev pub TakenSelect :
    (t : GoType) (fs : Fields)
    → List ℕ
    → ℕ
    → Map ℕ
    → FieldInfo
    → Map Bool
    → ℕ
    → Map Bool
    → Option (Val t)
    → FieldVals fs
    → Bool
    → Type 0
TakenSelect t fs input o enums i seen' o'' seen'' head tail false =
    (head ≡ none) × (parse_fields fs input o enums seen' ≡ ok (o'', seen'', tail))
TakenSelect t fs input o enums i seen' o'' seen'' head tail true =
    (v : Val t) × (o' : ℕ) × (head ≡ some v)
    × (parse_field t input o (some i) ≡ ok (o', v))
    × (parse_fields fs input o' enums seen' ≡ ok (o'', seen'', tail))

take_select :
    (name tag : Text) (t : GoType) (fs : Fields) (input : List ℕ) (o : ℕ) (enums : Map ℕ)
    (i : FieldInfo) (seen' : Map Bool) (o'' : ℕ) (seen'' : Map Bool)
    (vs : FieldVals (pointer name tag t fs)) (c : Bool)
    → ◌≡◌ {A = Result (ℕ × Map Bool × FieldVals (pointer name tag t fs))}
        (elim c [
          | false ↦
              parse_fields fs input o enums seen' >>= λ (o', seen, vs). ok (o', seen, (none, vs))
          | true ↦ parse_field t input o (some i) >>= λ (o', v).
              parse_fields fs input o' enums seen' >>= λ (o'', seen, vs).
              ok (o'', seen, (some v, vs))
        ])
        (ok (o'', seen'', vs))
    → TakenSelect t fs input o enums i seen' o'' seen'' vs.0 vs.1 c
take_select name tag t fs input o enums i seen' o'' seen'' vs false h =
    let (r, others, h1) = >>=-eq-ok (parse_fields fs input o enums seen') _ h in
    let e : ◌≡◌ {A = ℕ × Map Bool × FieldVals (pointer name tag t fs)} (r.0, r.1, (none, r.2))
        (o'', seen'', vs) =
      ok_inj h1 in
    (
      sym (ap (λ (p : ℕ × Map Bool × FieldVals (pointer name tag t fs)). p.2.0) e),
      others
          ∙ ap (λ (p : ℕ × Map Bool × FieldVals (pointer name tag t fs)). ok (p.0, p.1, p.2.1)) e,
    )
take_select name tag t fs input o enums i seen' o'' seen'' vs true h =
    let (a, first, h1) = >>=-eq-ok (parse_field t input o (some i)) _ h in
    let (r, others, h2) = >>=-eq-ok (parse_fields fs input a.0 enums seen') _ h1 in
    let e : ◌≡◌ {A = ℕ × Map Bool × FieldVals (pointer name tag t fs)} (r.0, r.1, (some a.1, r.2))
        (o'', seen'', vs) =
      ok_inj h2 in
    (
      a.1,
      a.0,
      sym (ap (λ (p : ℕ × Map Bool × FieldVals (pointer name tag t fs)). p.2.0) e),
      first,
      others
          ∙ ap (λ (p : ℕ × Map Bool × FieldVals (pointer name tag t fs)). ok (p.0, p.1, p.2.1)) e,
    )

pub parse_fields_pointer :
    (name tag : Text) (t : GoType) (fs : Fields) (input : List ℕ) (o : ℕ) (enums : Map ℕ)
    (seen : Map Bool) (o'' : ℕ) (seen'' : Map Bool) (vs : FieldVals (pointer name tag t fs))
    → parse_fields (pointer name tag t fs) input o enums seen ≡ ok (o'', seen'', vs)
    → (i : FieldInfo) × (c : Bool) × (seen' : Map Bool) × (field_tag_to_field_info tag name
        ≡ ok (some i))
      × (need_selector i ≡ ok tt)
      × (choose i enums seen ≡ ok (c, seen'))
      × TakenSelect t fs input o enums i seen' o'' seen'' vs.0 vs.1 c
unfolding parse_field
parse_fields_pointer name tag t fs input o enums seen o'' seen'' vs h =
    let (i, tagged, h1) = tagged_info (field_tag_to_field_info tag name) _ h in
    let (u, select, h2) = >>=-eq-ok (need_selector i) _ h1 in
    let (r, choice, h3) = >>=-eq-ok (choose i enums seen) _ h2 in
    (
      i,
      r.0,
      r.1,
      tagged,
      select,
      choice,
      take_select name tag t fs input o enums i r.1 o'' seen'' vs r.0 h3,
    )
