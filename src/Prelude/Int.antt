-- ===== src/Prelude/Int.antt =====
-- C's signed integers, without their bounds: `negsuc n` is -(n + 1). Each operation is by clauses
-- on the signs, so that it computes on non-negative operands, and `/` and `%` round towards zero.
-- A division by zero, which stops the program, gives 0 here.
use xpn.Prelude.{
  ℕ, suc, ◌+◌, ◌-◌, ◌*◌, ◌/◌, ◌%◌, Bool, true, false, Option, none, some, ltb, leb, ◌==◌,
  if◌then◌else◌, ◌≡◌, arith,
}

pub data ℤ : Type 0 where
  pos : ℕ → ℤ
  negsuc : ℕ → ℤ

-- a - b, as an integer.
abbrev pub sub_ℕ : ℕ → ℕ → ℤ
sub_ℕ a b = if leb b a then pos (a - b) else negsuc (b - a - 1)

abbrev pub neg : ℕ → ℤ
neg n = sub_ℕ 0 n

infixl 65 ◌+ℤ◌ ◌-ℤ◌
infixl 70 ◌*ℤ◌ ◌/ℤ◌ ◌%ℤ◌
abbrev pub ◌+ℤ◌ : ℤ → ℤ → ℤ
pos m +ℤ pos n = pos (m + n)
pos m +ℤ negsuc n = sub_ℕ m (suc n)
negsuc m +ℤ pos n = sub_ℕ n (suc m)
negsuc m +ℤ negsuc n = negsuc (suc (m + n))

abbrev pub ◌-ℤ◌ : ℤ → ℤ → ℤ
pos m -ℤ pos n = sub_ℕ m n
pos m -ℤ negsuc n = pos (m + suc n)
negsuc m -ℤ pos n = negsuc (m + n)
negsuc m -ℤ negsuc n = sub_ℕ (suc n) (suc m)

abbrev pub ◌*ℤ◌ : ℤ → ℤ → ℤ
pos m *ℤ pos n = pos (m * n)
pos m *ℤ negsuc n = neg (m * suc n)
negsuc m *ℤ pos n = neg (suc m * n)
negsuc m *ℤ negsuc n = pos (suc m * suc n)

abbrev pub ◌/ℤ◌ : ℤ → ℤ → ℤ
pos m /ℤ pos n = pos (m / n)
pos m /ℤ negsuc n = neg (m / suc n)
negsuc m /ℤ pos n = neg (suc m / n)
negsuc m /ℤ negsuc n = pos (suc m / suc n)

abbrev pub ◌%ℤ◌ : ℤ → ℤ → ℤ
pos m %ℤ pos n = pos (m % n)
pos m %ℤ negsuc n = pos (m % suc n)
negsuc m %ℤ pos n = neg (suc m % n)
negsuc m %ℤ negsuc n = neg (suc m % suc n)

abbrev pub lt_ℤ : ℤ → ℤ → Bool
lt_ℤ (pos m) (pos n) = ltb m n
lt_ℤ (pos m) (negsuc n) = false
lt_ℤ (negsuc m) (pos n) = true
lt_ℤ (negsuc m) (negsuc n) = ltb n m

abbrev pub le_ℤ : ℤ → ℤ → Bool
le_ℤ (pos m) (pos n) = leb m n
le_ℤ (pos m) (negsuc n) = false
le_ℤ (negsuc m) (pos n) = true
le_ℤ (negsuc m) (negsuc n) = leb n m

abbrev pub eq_ℤ : ℤ → ℤ → Bool
eq_ℤ (pos m) (pos n) = m == n
eq_ℤ (pos m) (negsuc n) = false
eq_ℤ (negsuc m) (pos n) = false
eq_ℤ (negsuc m) (negsuc n) = m == n

-- `abs`
abbrev pub abs : ℤ → ℤ
abs (pos n) = pos n
abs (negsuc n) = pos (suc n)

-- The subscript that an integer is, if it is not negative.
abbrev pub index : ℤ → Option ℕ
index (pos n) = some n
index (negsuc n) = none

pub eq_ℤ_sound : (a b : ℤ) → eq_ℤ a b ≡ true → a ≡ b
eq_ℤ_sound (pos m) (pos n) h = ground arith
eq_ℤ_sound (pos m) (negsuc n) h = cc
eq_ℤ_sound (negsuc m) (pos n) h = cc
eq_ℤ_sound (negsuc m) (negsuc n) h = ground arith

pub eq_ℤ_refl : (a : ℤ) → eq_ℤ a a ≡ true
eq_ℤ_refl (pos m) = ground arith
eq_ℤ_refl (negsuc m) = ground arith

pub pos_injective : {m n : ℕ} → pos m ≡ pos n → m ≡ n
pos_injective h = cc
