-- ===== src/Base/Int.antt =====
-- Go's `int` and `int32`: integers over the native numbers, their order, and the conversion of an
-- `int` to an `int32`, which wraps round.
use linstor_gateway.Base.{
  ℕ, suc, ◌+◌, ◌-◌, ◌%◌, ◌^◌, ◌<◌, ◌≡◌, Bool, true, arith, ltb, ◌==◌, if◌then◌else◌,
}

-- `negsuc n` is -(n + 1).
pub data ℤ : Type 0 where
  pos : ℕ → ℤ
  negsuc : ℕ → ℤ

abbrev pub pos_part : ℤ → ℕ
pos_part (pos n) = n
pos_part (negsuc n) = 0

abbrev pub neg_part : ℤ → ℕ
neg_part (pos n) = 0
neg_part (negsuc n) = suc n

infix 50 ◌<ℤ◌
abbrev pub ◌<ℤ◌ : ℤ → ℤ → Type 0
a <ℤ b = pos_part a + neg_part b < pos_part b + neg_part a

-- The tests `a < b` and `a == b`.
abbrev pub ltb_ℤ : ℤ → ℤ → Bool
ltb_ℤ a b = ltb (pos_part a + neg_part b) (pos_part b + neg_part a)

abbrev pub eqb_ℤ : ℤ → ℤ → Bool
eqb_ℤ a b = (pos_part a + neg_part b) == (pos_part b + neg_part a)

pub eqb_ℤ→eq : (a b : ℤ) → eqb_ℤ a b ≡ true → a ≡ b
eqb_ℤ→eq a b h = ground arith

pub eqb_ℤ_refl : (a : ℤ) → eqb_ℤ a a ≡ true
eqb_ℤ_refl a = ground arith

-- `int32(n)`: the low 32 bits, read as a signed number.
abbrev low_word : ℤ → ℕ
low_word (pos n) = n % 2 ^ 32
low_word (negsuc n) = 2 ^ 32 - 1 - n % 2 ^ 32

unfoldable pub to_int32 : ℤ → ℤ
to_int32 n = let w = low_word n in if ltb w (2 ^ 31) then pos w else negsuc (2 ^ 32 - 1 - w)

-- A number in the range of an `int32` is kept.
pub to_int32_in_range : (n : ℤ) → pos_part n < 2 ^ 31 → neg_part n < 2 ^ 31 + 1 → to_int32 n ≡ n
unfolding to_int32
to_int32_in_range (pos n) h k = ground arith
to_int32_in_range (negsuc n) h k = ground arith
