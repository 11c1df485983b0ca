-- ===== src/Tls/RoundTrip/Steps.antt =====
-- tls/tls.go: reading back bytes that stand at an offset of the input, for numbers, lengths and the
-- loop over the elements of a slice.
use native.Mathlib.Nat.{mod-eq_of_lt}
use certificate_transparency.Prelude.{
  ℕ, zero, suc, ◌+◌, ◌-◌, ◌%◌, ◌^◌, ◌≤◌, ◌<◌, ◌≡◌, sym, ap, subst, ◌∙◌, true, Option, some, List,
  [], ◌∷◌, ◌++◌, arith, length, take, drop, All, take-length_append, drop-length_append, drop-drop,
  length-append, length-drop, ge→ltb, lt→ltb, append_assoc,
}
use certificate_transparency.Prelude.Bytes.{be_bytes, be_value, length-be_bytes, be_value-be_bytes}
use certificate_transparency.Prelude.Text.{Text}
use certificate_transparency.Prelude.Outcome.{ok, ◌>>◌, ok_inj}
use certificate_transparency.Tls.Tag.{Message, FieldInfo, Result}
use certificate_transparency.Tls.Types.{GoType, Val}
use certificate_transparency.Tls.Parse.{require, parse_field, parse_elems, read_var_uint}
use certificate_transparency.Tls.Marshal.{marshal_elems}
use certificate_transparency.Tls.Width.{Fits, read_sized-be_bytes}
use certificate_transparency.Tls.Taken.{require_lem}
use certificate_transparency.Tls.Written.{marshal_elems_cons}

-- The input from the offset on, once the first part of it is read.
pub drop_read :
    (input : List ℕ) (o : ℕ) (bs rest : List ℕ)
    → drop o input ≡ bs ++ rest
    → drop (o + length bs) input ≡ rest
drop_read input o bs rest e =
    sym (drop-drop o (length bs) input) ∙ rw e (drop-length_append bs rest)

pub take_read : (n : ℕ) (bs rest : List ℕ) → length bs ≡ n → take n (bs ++ rest) ≡ bs
take_read n bs rest e = rw e at (take-length_append bs rest)

-- A number of a fixed width.
pub fixed_read :
    (k x : ℕ) (rest : List ℕ) → x < 256 ^ k → be_value 0 (take k (be_bytes k x ++ rest)) ≡ x
fixed_read k x rest h =
    rw (take_read k (be_bytes k x) rest (length-be_bytes k x)) (be_value-be_bytes k x h)

-- What a call of `parse` does with the bytes `bs` at any offset of any input.
abbrev pub Reads : (t : GoType) → Option FieldInfo → List ℕ → Val t → Type 0
Reads t info bs v =
    (input : List ℕ) (o : ℕ) (rest : List ℕ)
    → drop o input ≡ bs ++ rest
    → parse_field t input o info ≡ ok (o + length bs, v)

-- The five lines of `parseField` for a number of `k` bytes.
pub fixed_step :
    (k x : ℕ) (name : Text) (m : Message) (input : List ℕ) (o : ℕ) (rest : List ℕ)
    → x < 256 ^ k
    → drop o input ≡ be_bytes k x ++ rest
    → ◌>>◌ {B = ℕ × ℕ}
        (require (drop o input) k name m)
        (ok (o + k, be_value 0 (take k (drop o input))))
      ≡ ok (o + length (be_bytes k x), x)
fixed_step k x name m input o rest h e = rw (
  e,
  require_lem (be_bytes k x ++ rest) k name m long,
  fixed_read k x rest h,
  length-be_bytes k x,
)
  where
    long : k ≤ length (be_bytes k x ++ rest)
    long = omega (arith, length-append (be_bytes k x) rest, length-be_bytes k x)

-- The lines for a length and the bytes behind it, as far as the end of the vector.
pub sized_step :
    (i : FieldInfo) (body : List ℕ) (name : Text) (m : Message) (input : List ℕ) (o : ℕ)
    (rest : List ℕ)
    → i.count_set ≡ true
    → Fits i (length body)
    → drop o input ≡ (be_bytes i.count (length body) ++ body) ++ rest
    → (read_var_uint (drop o input) (some i) ≡ ok (length body))
      × (require (drop (o + i.count) input) (length body) name m ≡ ok tt)
      × (take (length body) (drop (o + i.count) input) ≡ body)
      × (o + i.count + length body ≡ o + length (be_bytes i.count (length body) ++ body))
sized_step i body name m input o rest set fits e =
    let size : List ℕ = be_bytes i.count (length body) in
    let front : drop o input ≡ size ++ (body ++ rest) = e ∙ append_assoc size body rest in
    let width : length size ≡ i.count = length-be_bytes i.count (length body) in
    let behind : drop (o + i.count) input ≡ body ++ rest =
      rw width at (drop_read input o size (body ++ rest) front) in
    (
      rw front (read_sized-be_bytes i (length body) (body ++ rest) set fits),
      rw behind (
          require_lem (body ++ rest) (length body) name m (omega (arith, length-append body rest))),
      rw behind (take-length_append body rest),
      omega (arith, length-append size body, width),
    )

-- The loop over the elements reads them one by one, and ends where the vector ends.
module _ {A : Type 0} (P : A → Type 0) (parse : ℕ → Result (ℕ × A)) (write : A → Result (List ℕ))
    (inner : List ℕ)
    (reads : (v : A) (out : List ℕ)
      → P v
      → write v ≡ ok out
      → (o : ℕ) (rest : List ℕ) → drop o inner ≡ out ++ rest
      → parse o ≡ ok (o + length out, v))
    (moves : (o o' : ℕ) (v : A) → o ≤ length inner → parse o ≡ ok (o', v) → o < o') where
  pub parse_elems-marshal_elems :
      (vs : List A) (bs : List ℕ) (fuel o : ℕ)
      → All P vs
      → marshal_elems write vs ≡ ok bs
      → drop o inner ≡ bs
      → length inner ≤ o + fuel
      → o ≤ length inner
      → parse_elems parse fuel (length inner) o ≡ ok vs
  unfolding parse_elems marshal_elems
  parse_elems-marshal_elems [] bs fuel o p h e enough inside =
      loop_end fuel (omega (arith, length-drop o inner, ap length (e ∙ sym (ok_inj h))))
    where
      loop_end : (fuel : ℕ) → length inner ≤ o → parse_elems parse fuel (length inner) o ≡ ok []
      loop_end zero past = rw (ge→ltb o (length inner) past)
      loop_end (suc f) past = rw (ge→ltb o (length inner) past, parse_elems)
  parse_elems-marshal_elems (v ∷ vs) bs fuel o p h e enough inside =
      let (out, more, hv, hvs, joined) = marshal_elems_cons write v vs bs h in
      let front : drop o inner ≡ out ++ more = e ∙ sym joined in
      let one : parse o ≡ ok (o + length out, v) = reads v out p.0 hv o more front in
      let ahead : o < o + length out = moves o (o + length out) v inside one in
      let rest : drop (o + length out) inner ≡ more = drop_read inner o out more front in
      let size : length inner - o ≡ length out + length more =
        sym (length-drop o inner) ∙ ap length front ∙ length-append out more in
      loop_step fuel out more
        (λ f enough'.
          parse_elems-marshal_elems vs more f (o + length out) p.1 hvs rest enough' (omega arith))
        one ahead size enough
    where
      loop_step :
          (fuel : ℕ) (out more : List ℕ)
          → ((f : ℕ)
              → length inner ≤ o + length out + f
              → parse_elems parse f (length inner) (o + length out) ≡ ok vs)
          → parse o ≡ ok (o + length out, v)
          → o < o + length out
          → length inner - o ≡ length out + length more
          → length inner ≤ o + fuel
          → parse_elems parse fuel (length inner) o ≡ ok (v ∷ vs)
      loop_step zero out more rest one ahead size enough = absurd (omega arith)
      loop_step (suc f) out more rest one ahead size enough =
          rw (lt→ltb o (length inner) (omega arith), parse_elems) (rw (one, rest f (omega arith)))

-- A number of a fixed width, from the bytes that were written for it.
pub fixed_case :
    (k x : ℕ) (name : Text) (m : Message) (bs : List ℕ)
    → x < 256 ^ k
    → be_bytes k x ≡ bs
    → (input : List ℕ) (o : ℕ) (rest : List ℕ) → drop o input ≡ bs ++ rest
    → ◌>>◌ {B = ℕ × ℕ}
        (require (drop o input) k name m)
        (ok (o + k, be_value 0 (take k (drop o input))))
      ≡ ok (o + length bs, x)
fixed_case k x name m bs h written input o rest e =
    subst
      (λ (b : List ℕ).
        drop o input ≡ b ++ rest
        → ◌>>◌ {B = ℕ × ℕ} (require (drop o input) k name m)
            (ok (o + k, be_value 0 (take k (drop o input))))
          ≡ ok (o + length b, x))
      written (fixed_step k x name m input o rest h) e

pub one_byte : (v : ℕ) → v < 256 → be_bytes 1 v ≡ v % 256 ∷ []
unfolding be_bytes
one_byte v h = ap (λ (b : ℕ). b ∷ []) (omega arith)

pub mod_same : (n v : ℕ) → v < n → v % n ≡ v
mod_same n v h = mod-eq_of_lt h
