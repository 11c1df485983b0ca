-- ===== src/Prelude/Int.antt =====
-- Go's signed integers: `pos n` is n and `negsuc n` is -(n + 1).
use Prim.Native.Nat.{ℕ}
use mathlib.Core.Path.{◌≡◌, ap, refl}
use mathlib.Core.Bool.{Bool, true, false}
use native.Mathlib.Omega.{arith}
use certificate_transparency.Prelude.Tests.{ltb, ◌==◌}

pub data ℤ : Type 0 where
  pos : ℕ → ℤ
  negsuc : ℕ → ℤ

abbrev pub ltz : ℤ → ℤ → Bool
ltz (pos m) (pos n) = ltb m n
ltz (pos m) (negsuc n) = false
ltz (negsuc m) (pos n) = true
ltz (negsuc m) (negsuc n) = ltb n m

abbrev pub eqz : ℤ → ℤ → Bool
eqz (pos m) (pos n) = m == n
eqz (pos m) (negsuc n) = false
eqz (negsuc m) (pos n) = false
eqz (negsuc m) (negsuc n) = m == n

pub eqz→eq : (a b : ℤ) → eqz a b ≡ true → a ≡ b
eqz→eq (pos m) (pos n) h = ap pos (ground arith)
eqz→eq (pos m) (negsuc n) h = cc
eqz→eq (negsuc m) (pos n) h = cc
eqz→eq (negsuc m) (negsuc n) h = ap negsuc (ground arith)

abbrev nat_of : ℤ → ℕ
nat_of (pos n) = n
nat_of (negsuc n) = 0

pub pos_inj : {m n : ℕ} → pos m ≡ pos n → m ≡ n
pos_inj h = ap nat_of h

pub pos-ne_negsuc : {m n : ℕ} → pos m ≡ negsuc n → ⊥
pos-ne_negsuc h = cc

-- Neither is less than itself, and what is not less is passed on.
pub ltz_irrefl : (a : ℤ) → ltz a a ≡ false
ltz_irrefl (pos m) = ground arith
ltz_irrefl (negsuc m) = ground arith

pub ltz_asym : (a b : ℤ) → ltz a b ≡ true → ltz b a ≡ false
ltz_asym (pos m) (pos n) h = ground arith
ltz_asym (pos m) (negsuc n) h = cc
ltz_asym (negsuc m) (pos n) h = refl
ltz_asym (negsuc m) (negsuc n) h = ground arith

pub not_ltz_trans : (a b c : ℤ) → ltz b a ≡ false → ltz c b ≡ false → ltz c a ≡ false
not_ltz_trans (pos a) (pos b) (pos c) h k = ground arith
not_ltz_trans (pos a) (pos b) (negsuc c) h k = cc
not_ltz_trans (pos a) (negsuc b) (pos c) h k = cc
not_ltz_trans (pos a) (negsuc b) (negsuc c) h k = cc
not_ltz_trans (negsuc a) (pos b) (pos c) h k = refl
not_ltz_trans (negsuc a) (pos b) (negsuc c) h k = cc
not_ltz_trans (negsuc a) (negsuc b) (pos c) h k = refl
not_ltz_trans (negsuc a) (negsuc b) (negsuc c) h k = ground arith

pub ltz_trans : (a b c : ℤ) → ltz a b ≡ true → ltz b c ≡ true → ltz a c ≡ true
ltz_trans (pos a) (pos b) (pos c) h k = ground arith
ltz_trans (pos a) (pos b) (negsuc c) h k = cc
ltz_trans (pos a) (negsuc b) c h k = cc
ltz_trans (negsuc a) (pos b) (pos c) h k = refl
ltz_trans (negsuc a) (pos b) (negsuc c) h k = cc
ltz_trans (negsuc a) (negsuc b) (pos c) h k = refl
ltz_trans (negsuc a) (negsuc b) (negsuc c) h k = ground arith

pub eqz_refl : (a : ℤ) → eqz a a ≡ true
eqz_refl (pos n) = ground arith
eqz_refl (negsuc n) = ground arith
