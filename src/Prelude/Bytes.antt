-- ===== src/Prelude/Bytes.antt =====
-- Big-endian numbers of a fixed width.
use Prim.Native.Nat.{ℕ, zero, suc, ◌+◌, ◌-◌, ◌*◌, ◌/◌, ◌%◌, ◌^◌, ◌≤◌, ◌<◌}
use mathlib.Core.Path.{◌≡◌, refl, sym, ap, ap₂, ◌∙◌}
use native.Mathlib.Nat.{
  mod-eq_of_lt, mod-lt, add-mod_right, mul-add-div_right, div-eq_of_lt, div-add-mod',
}
use mathlib.Core.Bool.{Bool, true, ◌&&◌}
use mathlib.Core.List.{List, [], ◌∷◌, map}
use certificate_transparency.Prelude.Tests.{ltb, ltb→lt, &&_split}
use native.Mathlib.Omega.{arith}
use certificate_transparency.Prelude.Lists.{length, drop, All}

abbrev pub IsByte : ℕ → Type 0
IsByte b = b < 256

-- The `k` bytes of `x`, the highest first.
unfoldable pub be_bytes : ℕ → ℕ → List ℕ
be_bytes zero x = []
be_bytes (suc k) x = x / 256 ^ k % 256 ∷ be_bytes k x

-- The number that bytes stand for, read onto `acc`.
unfoldable pub be_value : ℕ → List ℕ → ℕ
be_value acc [] = acc
be_value acc (b ∷ bs) = be_value (acc * 256 + b) bs

pub length-be_bytes : (k x : ℕ) → length (be_bytes k x) ≡ k
unfolding be_bytes
length-be_bytes zero x = refl
length-be_bytes (suc k) x = omega (arith, length-be_bytes k x)

pub be_bytes-IsByte : (k x : ℕ) → All IsByte (be_bytes k x)
unfolding be_bytes
be_bytes-IsByte zero x = tt
be_bytes-IsByte (suc k) x = (omega arith, be_bytes-IsByte k x)

pub pow_succ : (k : ℕ) → 256 ^ suc k ≡ 256 * 256 ^ k
pow_succ k = omega arith

pub pow_pos : (k : ℕ) → 0 < 256 ^ k
pow_pos zero = omega arith
pow_pos (suc k) = omega (arith, pow_pos k, pow_succ k)

pub mod_unique : (q r m : ℕ) → r < m → (q * m + r) % m ≡ r
mod_unique zero r m h = rw (mod-eq_of_lt {n = 0 * m + r} {m = m} (omega arith)) (omega arith)
mod_unique (suc q) r m h =
    ap (λ (t : ℕ). t % m) (shift (q * m)) ∙ add-mod_right (q * m + r) m ∙ mod_unique q r m h
  where
    shift : (a : ℕ) → suc q * m + r ≡ q * m + r + m
    shift a = omega arith

pub div_unique : (q r m : ℕ) → r < m → (q * m + r) / m ≡ q
div_unique q r m h = mul-add-div_right {m = m} (omega arith) q r ∙ rw (div-eq_of_lt h) (omega arith)

-- The low `suc k` bytes of `x` are its byte number `k` and the `k` bytes below.
split_top : (k x : ℕ) → x % 256 ^ suc k ≡ x / 256 ^ k % 256 * 256 ^ k + x % 256 ^ k
split_top k x =
    let p : ℕ = 256 ^ k in
    let q : ℕ = x / p in
    let r : ℕ = x % p in
    let b : ℕ = q % 256 in
    let small : r < p = mod-lt x (pow_pos k) in
    let whole : q * p + r ≡ x = div-add-mod' x p in
    let top : ◌≡◌ {A = ℕ} q (q / 256 * 256 + b) = omega arith in
    let fits : b * p + r < 256 * p = grind arith in
    let regroup : q / 256 * (256 * p) + (b * p + r) ≡ x =
      omega (arith, whole, ap (λ (t : ℕ). t * p) top) in
    rw (pow_succ k) (ap (λ (t : ℕ). t % (256 * p)) (sym regroup) ∙ mod_unique (q / 256) _ _ fits)

be_value-be_bytes_acc : (k acc x : ℕ) → be_value acc (be_bytes k x) ≡ acc * 256 ^ k + x % 256 ^ k
unfolding be_value be_bytes
be_value-be_bytes_acc zero acc x = omega arith
be_value-be_bytes_acc (suc k) acc x = omega (
  arith,
  be_value-be_bytes_acc k (acc * 256 + x / 256 ^ k % 256) x,
  split_top k x,
  pow_succ k,
  ap (λ (t : ℕ). acc * t) (pow_succ k),
)

-- A number that fits its width is read back from its bytes.
pub be_value-be_bytes : (k x : ℕ) → x < 256 ^ k → be_value 0 (be_bytes k x) ≡ x
be_value-be_bytes k x h = omega (arith, be_value-be_bytes_acc k 0 x, mod-eq_of_lt h)

pub be_value_bounds :
    (acc : ℕ) (bs : List ℕ)
    → All IsByte bs
    → (acc * 256 ^ length bs ≤ be_value acc bs) × (be_value acc bs < (acc + 1) * 256 ^ length bs)
unfolding be_value
be_value_bounds acc [] h = omega arith
be_value_bounds acc (b ∷ bs) h =
    let p : ℕ = 256 ^ length bs in
    let (lo, hi) = be_value_bounds (acc * 256 + b) bs h.1 in
    let scaled : (b + 1) * p ≤ 256 * p = grind arith in
    (
      omega (arith, pow_succ (length bs), ap (λ (t : ℕ). acc * t) (pow_succ (length bs))),
      omega (arith, pow_succ (length bs), ap (λ (t : ℕ). (acc + 1) * t) (pow_succ (length bs))),
    )

pub be_value-lt : (bs : List ℕ) → All IsByte bs → be_value 0 bs < 256 ^ length bs
be_value-lt bs h = omega (arith, be_value_bounds 0 bs h)

be_bytes-be_value_acc :
    (acc : ℕ) (bs : List ℕ) → All IsByte bs → be_bytes (length bs) (be_value acc bs) ≡ bs
unfolding be_value be_bytes
be_bytes-be_value_acc acc [] h = refl
be_bytes-be_value_acc acc (b ∷ bs) h =
    let p : ℕ = 256 ^ length bs in
    let v : ℕ = be_value (acc * 256 + b) bs in
    let (lo, hi) = be_value_bounds (acc * 256 + b) bs h.1 in
    let rest : ℕ = v - (acc * 256 + b) * p in
    let quotient : ◌≡◌ {A = ℕ} (v / p) (acc * 256 + b) =
      ap (λ (t : ℕ). t / p) (omega arith) ∙ div_unique (acc * 256 + b) rest p (omega arith) in
    ap₂ ◌∷◌ (rw quotient (omega arith)) (be_bytes-be_value_acc (acc * 256 + b) bs h.1)

-- Bytes are written again from the number that they stand for.
pub be_bytes-be_value : (bs : List ℕ) → All IsByte bs → be_bytes (length bs) (be_value 0 bs) ≡ bs
be_bytes-be_value bs h = be_bytes-be_value_acc 0 bs h

pub drop-be_bytes : (n k x : ℕ) → drop n (be_bytes (n + k) x) ≡ be_bytes k x
unfolding be_bytes
drop-be_bytes zero k x = ap (λ (t : ℕ). be_bytes t x) (omega arith)
drop-be_bytes (suc n) k x =
    ap (λ (t : ℕ). drop (suc n) (be_bytes t x)) (add_suc n) ∙ drop-be_bytes n k x
  where
    add_suc : (n : ℕ) → suc n + k ≡ suc (n + k)
    add_suc n = omega arith

-- The low byte of a byte is the byte.
pub map_byte : (bs : List ℕ) → All IsByte bs → map (λ b. b % 256) bs ≡ bs
map_byte [] h = refl
map_byte (b ∷ bs) h = ap₂ ◌∷◌ (omega arith) (map_byte bs h.1)

-- A test of whether numbers are bytes.
abbrev pub are_bytes : List ℕ → Bool
are_bytes [] = true
are_bytes (b ∷ bs) = ltb b 256 && are_bytes bs

pub are_bytes-IsByte : (bs : List ℕ) → are_bytes bs ≡ true → All IsByte bs
are_bytes-IsByte [] h = tt
are_bytes-IsByte (b ∷ bs) h =
    let (small, rest) = &&_split (ltb b 256) (are_bytes bs) h in
    (ltb→lt b 256 small, are_bytes-IsByte bs rest)
