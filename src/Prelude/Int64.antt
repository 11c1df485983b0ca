-- ===== src/Prelude/Int64.antt =====
-- Go's int64 arithmetic, which wraps around, and what it is where nothing overflows.
use Prim.Native.Nat.{ℕ, ◌+◌, ◌-◌, ◌%◌, ◌^◌, ◌≤◌, ◌<◌}
use mathlib.Core.Path.{◌≡◌}
use mathlib.Core.Bool.{Bool, not}
use native.Mathlib.Omega.{arith}
use certificate_transparency.Prelude.Tests.{ltb, ◌==◌, if◌then◌else◌}
use certificate_transparency.Prelude.Int.{ℤ, pos, negsuc, ltz}

abbrev add_mixed : ℕ → ℕ → ℤ
add_mixed m n = if ltb n m then pos (m - (n + 1)) else negsuc (n - m)

infixl 40 ◌+ℤ◌
abbrev pub ◌+ℤ◌ : ℤ → ℤ → ℤ
pos m +ℤ pos n = pos (m + n)
pos m +ℤ negsuc n = add_mixed m n
negsuc n +ℤ pos m = add_mixed m n
negsuc m +ℤ negsuc n = negsuc (m + n + 1)

abbrev pub neg : ℤ → ℤ
neg (pos n) = if n == 0 then pos 0 else negsuc (n - 1)
neg (negsuc n) = pos (n + 1)

-- The int64 with the low 64 bits of a natural number.
abbrev pub int64_of : ℕ → ℤ
int64_of n = let m = n % 2 ^ 64 in if ltb m (2 ^ 63) then pos m else negsuc (2 ^ 64 - 1 - m)

-- The uint64 with the bits of an int64.
abbrev pub uint64_of : ℤ → ℕ
uint64_of (pos n) = n % 2 ^ 64
uint64_of (negsuc n) = 2 ^ 64 - 1 - n % 2 ^ 64

-- Go's `%`, which has the sign of its first argument; the second is not 0.
abbrev pub rem : ℤ → ℤ → ℤ
rem (pos m) (pos n) = pos (m % n)
rem (pos m) (negsuc n) = pos (m % (n + 1))
rem (negsuc m) (pos n) = neg (pos ((m + 1) % n))
rem (negsuc m) (negsuc n) = neg (pos ((m + 1) % (n + 1)))

unfoldable pub add64 : ℤ → ℤ → ℤ
add64 a b = int64_of (uint64_of (a +ℤ b))

unfoldable pub sub64 : ℤ → ℤ → ℤ
sub64 a b = int64_of (uint64_of (a +ℤ neg b))

abbrev pub lez : ℤ → ℤ → Bool
lez a b = not (ltz b a)

pub int64_of-small : (n : ℕ) → n < 2 ^ 63 → int64_of n ≡ pos n
int64_of-small n small = ground arith

pub add64-pos : (m n : ℕ) → m + n < 2 ^ 63 → add64 (pos m) (pos n) ≡ pos (m + n)
unfolding add64
add64-pos m n small = ground arith

pub sub64-pos : (m n : ℕ) → n ≤ m → m < 2 ^ 63 → sub64 (pos m) (pos n) ≡ pos (m - n)
unfolding sub64
sub64-pos m n ordered small = ground arith
