-- ===== src/Tls/Canonical/Steps.antt =====
-- tls/tls.go: the bytes that were read, written again: numbers, lengths and the loop over elements.
use certificate_transparency.Prelude.{
  some_inj, take-append-drop, All-take, All-drop, ltb→ge, ℕ, zero, suc, ◌+◌, ◌^◌, ◌≤◌, ◌<◌, ◌≡◌,
  inl, inr, refl, sym, ap, subst, ◌∙◌, true, false, Option, some, List, [], ◌∷◌, ◌++◌, ltb, arith,
  length, take, drop, All, Bool-cases, inl, inr, drop-drop, length-drop, length-take, ltb→ge,
  append_assoc,
}
use certificate_transparency.Prelude.Bytes.{
  be_value-lt, be_bytes-be_value, IsByte, be_bytes, be_value,
}
use certificate_transparency.Prelude.Outcome.{ok, ◌>>=◌, >>=-eq-ok, ok_inj}
use certificate_transparency.Tls.Taken.{Vector}
use certificate_transparency.Tls.Tag.{FieldInfo, Result}
use certificate_transparency.Tls.Types.{GoType, Val}
use certificate_transparency.Tls.Parse.{parse_elems}
use certificate_transparency.Tls.Marshal.{marshal_field, marshal_elems}
use certificate_transparency.Tls.Width.{be_bytes-read_sized, Fits}
use certificate_transparency.Tls.Codable.{IsVal}

-- The value is one of the type, and its bytes stand where it was read.
pub record Canon (t : GoType) (input : List ℕ) (o o' : ℕ) (info : Option FieldInfo) (v : Val t)
    : Type 0 where
  pub out : List ℕ
  pub valid : IsVal t v
  pub written : marshal_field t v info ≡ ok out
  pub read : drop o input ≡ out ++ drop o' input

-- The input from an offset on, cut at a later offset.
pub cut_at :
    (input : List ℕ) (o n o' : ℕ)
    → o + n ≡ o'
    → drop o input ≡ take n (drop o input) ++ drop o' input
cut_at input o n o' e =
    sym (take-append-drop n (drop o input))
    ∙ ap (◌++◌ (take n (drop o input))) (drop-drop o n input ∙ ap (λ (k : ℕ). drop k input) e)

-- The number that `k` bytes at the offset stand for, and its bytes.
pub fixed_Canon :
    (k : ℕ) (input : List ℕ) (o : ℕ)
    → All IsByte input
    → k ≤ length (drop o input)
    → let x = be_value 0 (take k (drop o input)) in
      (x < 256 ^ k) × (be_bytes k x ≡ take k (drop o input))
fixed_Canon k input o b long =
    let front : List ℕ = take k (drop o input) in
    let size : length front ≡ k = omega (arith, length-take k (drop o input)) in
    let front_bytes : All IsByte front =
      All-take IsByte k (drop o input) (All-drop IsByte o input b) in
    (rw size at (be_value-lt front front_bytes), rw size at (be_bytes-be_value front front_bytes))

-- A vector that was read: its length, written with the width of the tag, and its bytes.
pub Vector-Canon :
    {input : List ℕ} {o o' : ℕ} {info : Option FieldInfo} {inner : List ℕ}
    → All IsByte input
    → (w : Vector input o o' info inner)
    → Fits w.i (length inner)
      × All IsByte inner
      × (drop o input ≡ (be_bytes w.i.count (length inner) ++ inner) ++ drop o' input)
Vector-Canon {input} {o} {o'} {info} {inner} b w =
    let (i, same, set, fits, width) =
      be_bytes-read_sized (drop o input) (some w.i) w.datalen (All-drop IsByte o input b) w.size in
    let tag : i ≡ w.i = some_inj (sym same) in
    let n : ℕ = w.i.count in
    let rest : List ℕ = drop (o + n) input in
    let size : length inner ≡ w.datalen =
      omega (arith, ap length w.body, length-take w.datalen rest, w.long) in
    let fits' : Fits w.i w.datalen = subst (λ j. Fits j w.datalen) tag fits in
    let width' : be_bytes n w.datalen ++ drop n (drop o input) ≡ drop o input =
      subst
        (λ (j : FieldInfo).
          be_bytes j.count w.datalen ++ drop j.count (drop o input) ≡ drop o input)
        tag width in
    let body : rest ≡ inner ++ drop o' input =
      cut_at input (o + n) w.datalen o' w.ends ∙ ap (λ (x : List ℕ). x ++ drop o' input) w.body in
    let whole : drop o input ≡ be_bytes n w.datalen ++ (inner ++ drop o' input) =
      sym width' ∙ ap (◌++◌ (be_bytes n w.datalen)) (drop-drop o n input ∙ body) in
    let inner_bytes : All IsByte inner =
      subst (All IsByte) w.body
        (All-take IsByte w.datalen rest (All-drop IsByte (o + n) input b)) in
    (
      rw size fits',
      inner_bytes,
      rw size (whole ∙ sym (append_assoc (be_bytes n w.datalen) inner (drop o' input))),
    )

-- The elements that the loop read are written as the rest of the vector.
module _ {A : Type 0} (P : A → Type 0) (parse : ℕ → Result (ℕ × A)) (write : A → Result (List ℕ))
    (inner : List ℕ)
    (canon : (o o' : ℕ) (v : A)
      → o ≤ length inner
      → parse o ≡ ok (o', v)
      → (o' ≤ length inner)
        × P v
        × ((out : List ℕ) × (write v ≡ ok out) × (drop o inner ≡ out ++ drop o' inner))) where
  drop_all : (o : ℕ) → o ≤ length inner → length inner ≤ o → drop o inner ≡ []
  drop_all o le ge = empty (drop o inner) (omega (arith, length-drop o inner))
    where
      empty : (l : List ℕ) → length l ≡ 0 → l ≡ []
      empty [] e = refl
      empty (x ∷ xs) e = absurd (omega arith)

  at_end :
      (o : ℕ) (vs : List A)
      → o ≤ length inner
      → length inner ≤ o
      → [] ≡ vs
      → All P vs × (marshal_elems write vs ≡ ok (drop o inner))
  unfolding marshal_elems
  at_end o vs inside past e =
      subst (λ ws. All P ws × (marshal_elems write ws ≡ ok (drop o inner))) e
        (tt, ap ok (sym (drop_all o inside past)))

  cons_written :
      (v : A) (vs : List A) (out more : List ℕ)
      → write v ≡ ok out
      → marshal_elems write vs ≡ ok more
      → marshal_elems write (v ∷ vs) ≡ ok (out ++ more)
  unfolding marshal_elems
  cons_written v vs out more h k = rw (h, k)

  one_more :
      (f o : ℕ)
      → ltb o (length inner) ≡ true
      → parse_elems parse (suc f) (length inner) o
        ≡ ◌>>=◌ {B = List A}
            (parse o)
            (λ r. parse_elems parse f (length inner) r.0 >>= λ ws. ok (r.1 ∷ ws))
  unfolding parse_elems
  one_more f o more = rw (more, parse_elems)

  no_more :
      (f o : ℕ) (vs : List A)
      → ltb o (length inner) ≡ false
      → parse_elems parse f (length inner) o ≡ ok vs
      → [] ≡ vs
  unfolding parse_elems
  no_more zero o vs past h = ok_inj (sym (rw past) ∙ h)
  no_more (suc f) o vs past h = ok_inj (sym (rw (past, parse_elems)) ∙ h)

  pub parse_elems-Canon :
      (fuel o : ℕ) (vs : List A)
      → o ≤ length inner
      → parse_elems parse fuel (length inner) o ≡ ok vs
      → All P vs × (marshal_elems write vs ≡ ok (drop o inner))
  parse_elems-Canon zero o vs inside h = elim (Bool-cases (ltb o (length inner))) [
    | inr past ↦ at_end o vs inside (ltb→ge _ _ past) (no_more zero o vs past h)
    | inl more ↦ absurd (out_of_fuel more)
  ]
    where
      out_of_fuel : ltb o (length inner) ≡ true → ⊥
      out_of_fuel more = unfold parse_elems in ground arith
  parse_elems-Canon (suc f) o vs inside h = elim (Bool-cases (ltb o (length inner))) [
    | inr past ↦ at_end o vs inside (ltb→ge _ _ past) (no_more (suc f) o vs past h)
    | inl more ↦
        let (r, first, h1) = >>=-eq-ok (parse o) _ (sym (one_more f o more) ∙ h) in
        let (ws, others, h2) = >>=-eq-ok (parse_elems parse f (length inner) r.0) _ h1 in
        let (inside', valid, (out, written, front)) = canon o r.0 r.1 inside first in
        let (valids, rest) = parse_elems-Canon f r.0 ws inside' others in
        subst (λ us. All P us × (marshal_elems write us ≡ ok (drop o inner))) (ok_inj h2)
          ((valid, valids), cons_written r.1 ws out _ written rest ∙ ap ok (sym front))
  ]
