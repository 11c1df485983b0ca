-- ===== src/Tls/Width.antt =====
-- tls/tls.go: numbers of the width that a tag gives, as they are checked, written and read.
use native.Mathlib.Nat.{two-pow-succ, zero-add}
use certificate_transparency.Prelude.{
  ℕ, zero, suc, ◌+◌, ◌-◌, ◌*◌, ◌^◌, ◌≤◌, ◌<◌, ◌≡◌, refl, sym, ap, ◌∙◌, ◌⊎◌, inl, inr, true, Option,
  none, some, List, [], ◌∷◌, ◌++◌, ltb, if◌then◌else◌, length, take, drop, All, Bool-cases, arith,
  take-length_append, length-append, length-take, All-take, ge→ltb, ltb→ge, take-append-drop,
}
use certificate_transparency.Prelude.Bytes.{
  IsByte, be_bytes, be_value, length-be_bytes, be_value-be_bytes, be_bytes-be_value, drop-be_bytes,
  be_bytes-IsByte, pow_pos, pow_succ,
}
use certificate_transparency.Prelude.Text.{Text}
use certificate_transparency.Prelude.Outcome.{ok, ◌>>◌, >>=-eq-ok}
use certificate_transparency.Tls.Tag.{FieldInfo, shl64, check}
use certificate_transparency.Tls.Parse.{var_value, read_sized, read_var_uint}
use certificate_transparency.Tls.Marshal.{put_sized}

two_pow_add : (k n : ℕ) → 2 ^ (k + n) ≡ 2 ^ k * 2 ^ n
two_pow_add zero n = rw zero-add (omega arith)
two_pow_add (suc k) n =
    ap (λ (t : ℕ). 2 ^ t) (shift k)
    ∙ two-pow-succ (k + n)
    ∙ omega (arith, two_pow_add k n, two-pow-succ k, ap (λ (t : ℕ). t * 2 ^ n) (two-pow-succ k))
  where
    shift : (k : ℕ) → suc k + n ≡ suc (k + n)
    shift k = omega arith

-- `1 << (8 * count)` is 0 from eight bytes on, so that no value passes the check there.
pub shl64_bytes : (c : ℕ) → shl64 1 (8 * c) ≡ (if ltb c 8 then 256 ^ c else 0)
unfolding shl64
shl64_bytes zero = refl
shl64_bytes (suc zero) = refl
shl64_bytes (suc (suc zero)) = refl
shl64_bytes (suc (suc (suc zero))) = refl
shl64_bytes (suc (suc (suc (suc zero)))) = refl
shl64_bytes (suc (suc (suc (suc (suc zero))))) = refl
shl64_bytes (suc (suc (suc (suc (suc (suc zero)))))) = refl
shl64_bytes (suc (suc (suc (suc (suc (suc (suc zero))))))) = refl
shl64_bytes (suc (suc (suc (suc (suc (suc (suc (suc c)))))))) = rw (multiple c) (ground arith)
  where
    multiple :
        (c : ℕ) → 2 ^ (8 * suc (suc (suc (suc (suc (suc (suc (suc c)))))))) ≡ 2 ^ 64 * 2 ^ (8 * c)
    multiple c = ap (λ (t : ℕ). 2 ^ t) (omega arith) ∙ two_pow_add 64 (8 * c)

-- What a value that passes the check is.
pub record Fits (i : FieldInfo) (x : ℕ) : Type 0 where
  pub narrow : i.count < 8
  pub bounded : x < 256 ^ i.count
  pub lengths : (i.maxlen ≡ 0) ⊎ ((i.minlen ≤ x) × (x ≤ i.maxlen))

pub check→Fits :
    (i : FieldInfo) (x : ℕ) (name : Text) {u : Unit {0}} → check i x name ≡ ok u → Fits i x
unfolding check
check→Fits i x name h = ground (arith, shl64_bytes i.count)

pub Fits→check : (i : FieldInfo) (x : ℕ) (name : Text) → Fits i x → check i x name ≡ ok tt
unfolding check
Fits→check i x name f = ground (arith, shl64_bytes i.count)

-- The bytes that are written for a number that passes the check.
pub put_sized_lem : (i : FieldInfo) (x : ℕ) → i.count < 8 → put_sized i x ≡ ok (be_bytes i.count x)
unfolding put_sized
put_sized_lem i x h =
    let shifted : drop (8 - i.count) (be_bytes (8 - i.count + i.count) x) ≡ be_bytes i.count x =
      drop-be_bytes (8 - i.count) i.count x in
    let whole : ◌≡◌ {A = ℕ} (8 - i.count + i.count) 8 = omega arith in
    rw (ge→ltb 8 i.count (omega arith)) (ap ok (rw whole at shifted))

var_value-be_value :
    (acc : ℕ) (bs : List ℕ)
    → All IsByte bs
    → (acc + 1) * 256 ^ length bs ≤ 2 ^ 64
    → var_value acc bs ≡ be_value acc bs
unfolding var_value be_value
var_value-be_value acc [] h f = refl
var_value-be_value acc (b ∷ bs) h f =
    let p : ℕ = 256 ^ length bs in
    let scale : (acc + 1) * 256 ^ suc (length bs) ≡ (acc + 1) * 256 * p =
      ap (λ (t : ℕ). (acc + 1) * t) (pow_succ (length bs)) ∙ omega arith in
    let below : (acc * 256 + b + 1) * p ≤ (acc + 1) * 256 * p = grind arith in
    let positive : 0 < p = pow_pos (length bs) in
    let atleast : (acc + 1) * 256 ≤ (acc + 1) * 256 * p = grind arith in
    let kept : shl64 acc 8 ≡ acc * 256 = shl64_byte acc (omega arith) in
    rw kept (var_value-be_value (acc * 256 + b) bs h.1 (omega arith))
  where
    shl64_byte : (acc : ℕ) → acc * 256 < 2 ^ 64 → shl64 acc 8 ≡ acc * 256
    shl64_byte acc h = omega arith

pub pow_le : (c : ℕ) → c < 8 → 256 ^ c ≤ 2 ^ 64
pow_le zero h = omega arith
pow_le (suc zero) h = omega arith
pow_le (suc (suc zero)) h = omega arith
pow_le (suc (suc (suc zero))) h = omega arith
pow_le (suc (suc (suc (suc zero)))) h = omega arith
pow_le (suc (suc (suc (suc (suc zero))))) h = omega arith
pow_le (suc (suc (suc (suc (suc (suc zero)))))) h = omega arith
pow_le (suc (suc (suc (suc (suc (suc (suc zero))))))) h = omega arith
pow_le (suc (suc (suc (suc (suc (suc (suc (suc c)))))))) h = absurd (omega arith)

pub var_value_lem : (bs : List ℕ) → All IsByte bs → length bs < 8 → var_value 0 bs ≡ be_value 0 bs
var_value_lem bs h c = var_value-be_value 0 bs h (omega (arith, pow_le (length bs) c))

-- A number that was written with a tag's width is read back with it.
pub read_sized-be_bytes :
    (i : FieldInfo) (x : ℕ) (rest : List ℕ)
    → i.count_set ≡ true
    → Fits i x
    → read_var_uint (be_bytes i.count x ++ rest) (some i) ≡ ok x
unfolding read_var_uint
read_sized-be_bytes i x rest s f = rw (front, value, Fits→check i x i.name f, s, ge→ltb _ _ long)
  where
    written : List ℕ
    written = be_bytes i.count x

    size : length written ≡ i.count
    size = length-be_bytes i.count x

    long : i.count ≤ length (written ++ rest)
    long = omega (arith, length-append written rest, size)

    front : take i.count (written ++ rest) ≡ written
    front = rw (size) at (take-length_append written rest)

    value : var_value 0 written ≡ x
    value =
        var_value_lem written (be_bytes-IsByte i.count x) (omega (arith, size, f.narrow))
        ∙ be_value-be_bytes i.count x f.bounded

pub read_sized_parts :
    (rest : List ℕ) (i : FieldInfo) (x : ℕ)
    → read_sized rest i ≡ ok x
    → (i.count_set ≡ true)
      × (i.count ≤ length rest)
      × (var_value 0 (take i.count rest) ≡ x)
      × Fits i x
unfolding read_sized
read_sized_parts rest i x h = elim (Bool-cases i.count_set) [
  | inr unset ↦ ground arith
  | inl set ↦ elim (Bool-cases (ltb (length rest) i.count)) [
    | inl short ↦ ground arith
    | inr long ↦
        let v : ℕ = var_value 0 (take i.count rest) in
        let checks : (check i v i.name >> ok v) ≡ ok x = ground arith in
        let (u, passed, e) = >>=-eq-ok (check i v i.name) (λ _. ok v) checks in
        let value : v ≡ x = ground arith in
        (set, ltb→ge _ _ long, value, rw value at (check→Fits i v i.name passed))
  ]
]

-- A number that was read is the one whose bytes stand there.
pub be_bytes-read_sized :
    (rest : List ℕ) (info : Option FieldInfo) (x : ℕ)
    → All IsByte rest
    → read_var_uint rest info ≡ ok x
    → (i : FieldInfo) × (info ≡ some i)
      × (i.count_set ≡ true)
      × Fits i x
      × (be_bytes i.count x ++ drop i.count rest ≡ rest)
unfolding read_var_uint
be_bytes-read_sized rest none x b h = cc
be_bytes-read_sized rest (some i) x b h =
    let (set, long, value, fits) = read_sized_parts rest i x h in
    let front : List ℕ = take i.count rest in
    let size : length front ≡ i.count = omega (arith, length-take i.count rest) in
    let front_bytes : All IsByte front = All-take IsByte i.count rest b in
    let read : be_value 0 front ≡ x =
      sym (var_value_lem front front_bytes (omega (arith, fits.narrow))) ∙ value in
    let written : be_bytes i.count x ≡ front =
      rw (size, read) at (be_bytes-be_value front front_bytes) in
    (i, refl, set, fits, rw written (take-append-drop i.count rest))
