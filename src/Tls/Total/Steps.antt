-- ===== src/Tls/Total/Steps.antt =====
-- tls/tls.go: that the steps of `parseField` return.
use certificate_transparency.Prelude.{
  not, ℕ, zero, suc, ◌+◌, ◌≤◌, ◌<◌, ◌≡◌, inl, inr, refl, Bool, true, false, Option, none, some,
  List, [], ◌∷◌, ltb, arith, take, drop, Bool-cases, inl, inr, ge→ltb,
}
use certificate_transparency.Prelude.Text.{Text, Map}
use certificate_transparency.Prelude.Outcome.{
  ok, err, panic, diverge, ◌>>=◌, ◌>>◌, Returns, ok-Returns, err-Returns, >>=-Returns,
}
use certificate_transparency.Tls.Tag.{
  is_empty, truncated_slice, Message, FieldInfo, Result, field_name, field_tag_to_field_info, check,
}
use certificate_transparency.Tls.Parse.{
  var_value, count_of, need_selector, non_nil, require, parse_elems, read_var_uint, refuse_select,
  choose, check_seen,
}

pub require-Returns :
    (rest : List ℕ) (n : ℕ) (name : Text) (m : Message) → Returns (require rest n name m)
unfolding require
require-Returns rest n name m = ground arith

pub check-Returns : (i : FieldInfo) (x : ℕ) (name : Text) → Returns (check i x name)
unfolding check
check-Returns i x name = ground arith

pub fixed_Returns :
    {A : Type 0} (input : List ℕ) (n : ℕ) (name : Text) (m : Message) (a : A)
    → Returns (require input n name m >> ok a)
fixed_Returns input n name m a =
    >>=-Returns (require input n name m) (λ _. ok a) (require-Returns input n name m)
      (λ u _. ok-Returns a)

pub read_var_uint-Returns :
    (rest : List ℕ) (info : Option FieldInfo) → Returns (read_var_uint rest info)
unfolding read_var_uint
read_var_uint-Returns rest none = err-Returns _
read_var_uint-Returns rest (some i) =
    ground (arith, check-Returns i (var_value 0 (take i.count rest)) i.name)

-- Where a number was read, there is information on the field.
pub read_count :
    (rest : List ℕ) (info : Option FieldInfo) (x : ℕ)
    → read_var_uint rest info ≡ ok x
    → Returns (count_of info)
unfolding read_var_uint
read_count rest none x h = cc
read_count rest (some i) x h = ok-Returns i.count

pub refuse_select-Returns : (i : FieldInfo) (enums : Map ℕ) → Returns (refuse_select i enums)
unfolding refuse_select
refuse_select-Returns i enums = ground arith

pub need_selector-Returns : (i : FieldInfo) → Returns (need_selector i)
unfolding need_selector
need_selector-Returns i = ground arith

pub choose-Returns :
    (i : FieldInfo) (enums : Map ℕ) (seen : Map Bool) → Returns (choose i enums seen)
unfolding choose
choose-Returns i enums seen = ground arith

pub check_seen-Returns :
    (info : Option FieldInfo) (seen : Map Bool) → Returns (check_seen info seen)
unfolding check_seen
check_seen-Returns info [] = ok-Returns tt
check_seen-Returns info ((s, true) ∷ m) = check_seen-Returns info m
check_seen-Returns info ((s, false) ∷ m) = err-Returns _

pub tagged_Returns :
    (tag name : Text)
    → not (is_empty name) ≡ true
    → Returns (field_tag_to_field_info tag name >>= non_nil)
unfolding field_tag_to_field_info
tagged_Returns tag name h = ground arith

-- The loop over elements that take input ends.
module _ {A : Type 0} (parse : ℕ → Result (ℕ × A)) (size : ℕ)
    (returns : (o : ℕ) → o ≤ size → Returns (parse o))
    (moves : (o o' : ℕ) (v : A) → o ≤ size → parse o ≡ ok (o', v) → (o < o') × (o' ≤ size)) where
  pub parse_elems-Returns :
      (fuel o : ℕ) → o ≤ size → size ≤ o + fuel → Returns (parse_elems parse fuel size o)
  unfolding parse_elems
  parse_elems-Returns zero o inside enough = rw (ge→ltb o size (omega arith)) (ok-Returns [])
  parse_elems-Returns (suc f) o inside enough = elim (Bool-cases (ltb o size)) [
    | inr past ↦ rw (past, parse_elems) (ok-Returns [])
    | inl more ↦
        rw (more, parse_elems)
          (>>=-Returns (parse o) _ (returns o inside) (λ r e.
            let (ahead, inside') = moves o r.0 r.1 inside e in
            >>=-Returns (parse_elems parse f size r.0) _
              (parse_elems-Returns f r.0 inside' (omega arith)) (λ vs _. ok-Returns (r.1 ∷ vs))))
  ]

pub vector_Returns :
    {A : Type 0} (input : List ℕ) (o : ℕ) (info : Option FieldInfo) (f : ℕ → ℕ → Result A)
    → ((count datalen : ℕ) → Returns (f count datalen))
    → Returns (
        read_var_uint (drop o input) info >>= λ datalen. count_of info >>= λ count.
        require (drop (o + count) input) datalen (field_name info) truncated_slice
        >> f count datalen)
vector_Returns input o info f each =
    >>=-Returns (read_var_uint (drop o input) info) _ (read_var_uint-Returns (drop o input) info)
      (λ n read. >>=-Returns (count_of info) _ (read_count (drop o input) info n read) (λ count _.
        >>=-Returns (require (drop (o + count) input) n (field_name info) truncated_slice) _
          (require-Returns _ n (field_name info) truncated_slice) (λ _ _. each count n)))

-- The first lines of the struct loop, for a field with a name.
pub named_Returns :
    {A : Type 0} (tag name : Text) (f : FieldInfo → Result A)
    → not (is_empty name) ≡ true
    → ((i : FieldInfo) → field_tag_to_field_info tag name ≡ ok (some i) → Returns (f i))
    → Returns (field_tag_to_field_info tag name >>= λ info. non_nil info >>= f)
named_Returns tag name f named each =
    go (field_tag_to_field_info tag name) (tagged_Returns tag name named) each
  where
    go :
        (r : Result (Option FieldInfo))
        → Returns (r >>= non_nil)
        → ((i : FieldInfo) → r ≡ ok (some i) → Returns (f i))
        → Returns (r >>= λ info. non_nil info >>= f)
    go (ok (some i)) h k = k i refl
    go (ok none) h k = absurd (h.0 refl)
    go (err e) h k = err-Returns e
    go panic h k = absurd (h.0 refl)
    go diverge h k = absurd (h.1 refl)

pub either_Returns :
    {A : Type 0} (c : Bool) (x y : Result A)
    → Returns x
    → Returns y
    → Returns {A = A} (elim c [ false ↦ x | true ↦ y ])
either_Returns false x y hx hy = hx
either_Returns true x y hx hy = hy

pub params_Returns : (params : Text) → Returns (field_tag_to_field_info params [])
unfolding field_tag_to_field_info
params_Returns params = ground arith
