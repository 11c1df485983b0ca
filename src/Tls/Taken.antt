-- ===== src/Tls/Taken.antt =====
-- tls/tls.go: what a successful call of `parseField` did on the way.
use certificate_transparency.Prelude.{
  ℕ, ◌+◌, ◌≤◌, ◌≡◌, refl, ap, subst, ◌∙◌, Bool, Option, none, some, List, [], arith, length, take,
  drop, ge→ltb,
}
use certificate_transparency.Prelude.Text.{Text, Map}
use certificate_transparency.Prelude.Outcome.{ok, ◌>>◌, >>=-eq-ok, ok_inj}
use certificate_transparency.Tls.Written.{tagged_info}
use certificate_transparency.Tls.Tag.{truncated_slice, Message, FieldInfo, field_tag_to_field_info}
use certificate_transparency.Tls.Types.{
  GoType, Fields, enum, bytes, slice, struct, field, Val, FieldVals,
}
use certificate_transparency.Tls.Parse.{
  require, parse_field, parse_fields, parse_elems, read_var_uint, enum_value, remember,
  refuse_select, check_seen,
}

pub require-ok :
    (rest : List ℕ) (n : ℕ) (name : Text) (m : Message) {u : Unit {0}}
    → require rest n name m ≡ ok u
    → n ≤ length rest
unfolding require
require-ok rest n name m h = ground arith

pub require_lem :
    (rest : List ℕ) (n : ℕ) (name : Text) (m : Message)
    → n ≤ length rest
    → require rest n name m ≡ ok tt
unfolding require
require_lem rest n name m h = rw (ge→ltb _ _ h)

pub read_fixed :
    {A : Type 0} (k : ℕ) (name : Text) (m : Message) (input : List ℕ) (o o' : ℕ) (x v : A)
    → ◌>>◌ {B = ℕ × A} (require (drop o input) k name m) (ok (o + k, x)) ≡ ok (o', v)
    → (k ≤ length (drop o input)) × (o + k ≡ o') × (x ≡ v)
read_fixed {A} k name m input o o' x v h =
    let (u, long, h1) = >>=-eq-ok (require (drop o input) k name m) _ h in
    let e : ◌≡◌ {A = ℕ × A} (o + k, x) (o', v) = ok_inj h1 in
    (require-ok (drop o input) k name m long, ap (λ (p : ℕ × A). p.0) e, ap (λ (p : ℕ × A). p.1) e)

pub parse_enum :
    (input : List ℕ) (o o' v : ℕ) (info : Option FieldInfo)
    → parse_field enum input o info ≡ ok (o', v)
    → (i : FieldInfo) × (info ≡ some i)
      × (read_var_uint (drop o input) (some i) ≡ ok v)
      × (o + i.count ≡ o')
unfolding parse_field
parse_enum input o o' v none h = unfold read_var_uint in cc
parse_enum input o o' v (some i) h =
    let (x, read, h1) = >>=-eq-ok (read_var_uint (drop o input) (some i)) _ h in
    (i, refl, ground arith, ground arith)

-- A vector: its length was read, and the input is long enough.
pub record Vector (input : List ℕ) (o o' : ℕ) (info : Option FieldInfo) (inner : List ℕ)
    : Type 0 where
  pub i : FieldInfo
  pub datalen : ℕ
  pub tagged : info ≡ some i
  pub size : read_var_uint (drop o input) (some i) ≡ ok datalen
  pub long : datalen ≤ length (drop (o + i.count) input)
  pub body : take datalen (drop (o + i.count) input) ≡ inner
  pub ends : o + i.count + datalen ≡ o'

pub parse_bytes :
    (input : List ℕ) (o o' : ℕ) (v : List ℕ) (info : Option FieldInfo)
    → parse_field bytes input o info ≡ ok (o', v)
    → Vector input o o' info v
unfolding parse_field
parse_bytes input o o' v none h = unfold read_var_uint in cc
parse_bytes input o o' v (some i) h =
    let (n, read, h1) = >>=-eq-ok (read_var_uint (drop o input) (some i)) _ h in
    let (u, long, h2) =
      >>=-eq-ok (require (drop (o + i.count) input) n i.name truncated_slice) _ h1 in
    record {
      i = i;
      datalen = n;
      tagged = refl;
      size = read;
      long = require-ok _ n i.name truncated_slice long;
      body = ground arith;
      ends = ground arith;
    }

pub parse_slice :
    (t : GoType) (input : List ℕ) (o o' : ℕ) (v : List (Val t)) (info : Option FieldInfo)
    → parse_field (slice t) input o info ≡ ok (o', v)
    → (inner : List ℕ) × Vector input o o' info inner
      × (parse_elems (λ io. parse_field t inner io none) (length inner) (length inner) 0 ≡ ok v)
unfolding parse_field
parse_slice t input o o' v none h = unfold read_var_uint in cc
parse_slice t input o o' v (some i) h =
    let (n, read, h1) = >>=-eq-ok (read_var_uint (drop o input) (some i)) _ h in
    let (u, long, h2) =
      >>=-eq-ok (require (drop (o + i.count) input) n i.name truncated_slice) _ h1 in
    let inner : List ℕ = take n (drop (o + i.count) input) in
    let (vs, elems, h3) =
      >>=-eq-ok (parse_elems (λ io. parse_field t inner io none) (length inner) (length inner) 0) _
        h2 in
    let vector : Vector input o o' (some i) inner = record {
      i = i;
      datalen = n;
      tagged = refl;
      size = read;
      long = require-ok _ n i.name truncated_slice long;
      body = refl;
      ends = ground arith;
    } in
    (inner, vector, elems ∙ ground arith)

pub parse_struct :
    (fs : Fields) (input : List ℕ) (o o' : ℕ) (v : FieldVals fs) (info : Option FieldInfo)
    → parse_field (struct fs) input o info ≡ ok (o', v)
    → (seen : Map Bool) × (parse_fields fs input o [] [] ≡ ok (o', seen, v))
      × (check_seen info seen ≡ ok tt)
unfolding parse_field
parse_struct fs input o o' v info h =
    let (r, hr, h1) = >>=-eq-ok (parse_fields fs input o [] []) _ h in
    let (u, hu, h2) = >>=-eq-ok (check_seen info r.1) _ h1 in (r.1, ground arith, ground arith)

-- A field that is read, with the information of its tag.
pub record Taken (name tag : Text) (t : GoType) (fs : Fields) (input : List ℕ) (o : ℕ)
    (enums : Map ℕ) (seen : Map Bool) (o'' : ℕ) (seen' : Map Bool)
    (vs : FieldVals (field name tag t fs)) : Type 0 where
  pub i : FieldInfo
  pub o' : ℕ
  pub tagged : field_tag_to_field_info tag name ≡ ok (some i)
  pub plain : refuse_select i enums ≡ ok tt
  pub first : parse_field t input o (some i) ≡ ok (o', vs.0)
  pub others :
      parse_fields fs input o' (remember name (enum_value t vs.0) enums) seen
      ≡ ok (o'', seen', vs.1)

pub parse_fields_field :
    (name tag : Text) (t : GoType) (fs : Fields) (input : List ℕ) (o : ℕ) (enums : Map ℕ)
    (seen : Map Bool) (o'' : ℕ) (seen' : Map Bool) (vs : FieldVals (field name tag t fs))
    → parse_fields (field name tag t fs) input o enums seen ≡ ok (o'', seen', vs)
    → Taken name tag t fs input o enums seen o'' seen' vs
unfolding parse_field
parse_fields_field name tag t fs input o enums seen o'' seen' vs h =
    let (i, tagged, h1) = tagged_info (field_tag_to_field_info tag name) _ h in
    let (u, plain, h2) = >>=-eq-ok (refuse_select i enums) _ h1 in
    let (a, first, h3) = >>=-eq-ok (parse_field t input o (some i)) _ h2 in
    let (r, others, h4) =
      >>=-eq-ok (parse_fields fs input a.0 (remember name (enum_value t a.1) enums) seen) _ h3 in
    let e : ◌≡◌ {A = ℕ × Map Bool × FieldVals (field name tag t fs)} (r.0, r.1, (a.1, r.2))
        (o'', seen', vs) =
      ok_inj h4 in
    let head : a.1 ≡ vs.0 = ap (λ (p : ℕ × Map Bool × FieldVals (field name tag t fs)). p.2.0) e in
    let rest : ◌≡◌ {A = ℕ × Map Bool × FieldVals fs} r (o'', seen', vs.1) =
      ap (λ (p : ℕ × Map Bool × FieldVals (field name tag t fs)). (p.0, p.1, p.2.1)) e in
    record {
      i = i;
      o' = a.0;
      tagged = tagged;
      plain = plain;
      first = first ∙ ap (λ (x : Val t). ok (a.0, x)) head;
      others =
          subst
            (λ x.
              parse_fields fs input a.0 (remember name (enum_value t x) enums) seen
              ≡ ok (o'', seen', vs.1))
            head (others ∙ ap ok rest);
    }
