-- ===== src/Proto/Integers.antt =====
-- Signed integers, as JavaScript's numbers hold them between -2^53 and 2^53: division and remainder
-- round towards zero.
use collab_notes_ecs.Base.{
  ℕ, zero, suc, ◌+◌, ◌-◌, ◌*◌, ◌/◌, ◌%◌, ◌≤◌, ◌≡◌, refl, ap, Bool, true, false, eqb, ltb, eqb_iff,
  if◌then◌else◌, arith,
}

-- `pos n` is n, and `negsuc n` is -(n + 1).
pub data ℤ : Type 0 where
  pos : ℕ → ℤ
  negsuc : ℕ → ℤ

-- -n
abbrev pub neg : ℕ → ℤ
neg zero = pos 0
neg (suc n) = negsuc n

-- `i === j`
abbrev pub eqz : ℤ → ℤ → Bool
eqz (pos m) (pos n) = eqb m n
eqz (negsuc m) (negsuc n) = eqb m n
eqz (pos m) (negsuc n) = false
eqz (negsuc m) (pos n) = false

pub eqz_eq : (i j : ℤ) → eqz i j ≡ true → i ≡ j
eqz_eq (pos m) (pos n) h = ap pos ((eqb_iff m n).0 h)
eqz_eq (negsuc m) (negsuc n) h = ap negsuc ((eqb_iff m n).0 h)
eqz_eq (pos m) (negsuc n) h = cc
eqz_eq (negsuc m) (pos n) h = cc

-- m - n
abbrev pub minus : ℕ → ℕ → ℤ
minus m n = if ltb m n then neg (n - m) else pos (m - n)

-- `i + j`
abbrev pub ◌+ℤ◌ : ℤ → ℤ → ℤ
pos m +ℤ pos n = pos (m + n)
pos m +ℤ negsuc n = minus m (suc n)
negsuc m +ℤ pos n = minus n (suc m)
negsuc m +ℤ negsuc n = negsuc (suc (m + n))

infixl 60 ◌+ℤ◌
-- `i * k` for a positive `k`
abbrev pub times : ℤ → ℕ → ℤ
times (pos m) k = pos (m * k)
times (negsuc m) k = neg (suc m * k)

-- `Math.trunc(i / k)` for a positive `k`
abbrev pub trunc_div : ℤ → ℕ → ℤ
trunc_div (pos m) k = pos (m / k)
trunc_div (negsuc m) k = neg (suc m / k)

-- `i % k` for a positive `k`
abbrev pub rem : ℤ → ℕ → ℤ
rem (pos m) k = pos (m % k)
rem (negsuc m) k = neg (suc m % k)

-- What 32 and 64 bits hold.
abbrev pub IsInt32 : ℤ → Type 0
IsInt32 (pos m) = m ≤ 2147483647
IsInt32 (negsuc m) = m ≤ 2147483647

abbrev pub IsInt64 : ℤ → Type 0
IsInt64 (pos m) = m ≤ 9223372036854775807
IsInt64 (negsuc m) = m ≤ 9223372036854775807

pub times-neg : (m k : ℕ) → times (neg m) k ≡ neg (m * k)
times-neg zero k = let none_left : 0 * k ≡ 0 = omega arith in rw none_left refl
times-neg (suc m) k = refl

pub trunc_div-neg : (m k : ℕ) → trunc_div (neg m) (suc k) ≡ neg (m / suc k)
trunc_div-neg zero k = let none_left : 0 / suc k ≡ 0 = omega arith in rw none_left refl
trunc_div-neg (suc m) k = refl

pub neg-+ℤ : (m n : ℕ) → neg m +ℤ neg n ≡ neg (m + n)
neg-+ℤ zero zero = refl
neg-+ℤ zero (suc n) = ground arith
neg-+ℤ (suc m) zero = ground arith
neg-+ℤ (suc m) (suc n) = ground arith
