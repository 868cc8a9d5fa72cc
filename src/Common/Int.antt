-- ===== src/Common/Int.antt =====
-- Signed integers over the native numbers, and the conversions between C++'s integer types.
use whyrun.Common.{
  ℕ, suc, ◌+◌, ◌-◌, ◌%◌, ◌^◌, ◌≤◌, ◌≡◌, ◌↔◌, Bool, true, false, arith, ltb, ◌==◌, if◌then◌else◌,
}

-- `negsuc n` is -(n + 1).
pub data ℤ : Type 0 where
  pos : ℕ → ℤ
  negsuc : ℕ → ℤ

-- -n, of a number.
abbrev pub neg : ℕ → ℤ
neg n = if n == 0 then pos 0 else negsuc (n - 1)

-- `a < 0`
abbrev pub is_negative : ℤ → Bool
is_negative (pos n) = false
is_negative (negsuc n) = true

abbrev pub int_eq : ℤ → ℤ → Bool
int_eq (pos a) (pos b) = a == b
int_eq (negsuc a) (negsuc b) = a == b
int_eq _ _ = false

pub int_eq_iff : (a b : ℤ) → (int_eq a b ≡ true) ↔ (a ≡ b)
int_eq_iff (pos a) (pos b) = ground arith
int_eq_iff (negsuc a) (negsuc b) = ground arith
int_eq_iff (pos a) (negsuc b) = ground arith
int_eq_iff (negsuc a) (pos b) = ground arith

-- The `int` with the low 32 bits of a word: `static_cast<int>` of a `uint64_t`.
unfoldable pub int_of_word : ℕ → ℤ
int_of_word w = let low = w % 2 ^ 32 in if ltb low (2 ^ 31) then pos low else neg (2 ^ 32 - low)

-- `static_cast<int>` of an `int64_t`.
unfoldable pub int_of_long : ℤ → ℤ
unfolding int_of_word
int_of_long (pos n) = int_of_word n
int_of_long (negsuc n) = int_of_word (2 ^ 32 - 1 - n % 2 ^ 32)

-- Nothing is lost of a value that an `int` holds.
pub int_of_word-small : (n : ℕ) → suc n ≤ 2 ^ 31 → int_of_word n ≡ pos n
unfolding int_of_word
int_of_word-small n h = ground arith

-- `static_cast<std::int64_t>` of a `uint64_t`.
unfoldable pub as_i64 : ℕ → ℤ
as_i64 w = let low = w % 2 ^ 64 in if ltb low (2 ^ 63) then pos low else neg (2 ^ 64 - low)

-- `std::max<std::int64_t>(0, v)`
abbrev pub pos_part : ℤ → ℕ
pos_part (pos n) = n
pos_part (negsuc n) = 0

abbrev pub neg_part : ℤ → ℕ
neg_part (pos n) = 0
neg_part (negsuc n) = suc n

infixl 65 ◌+ℤ◌ ◌-ℤ◌
-- The difference of two numbers, as an integer.
abbrev pub sub_ℕ : ℕ → ℕ → ℤ
sub_ℕ a b = if ltb a b then neg (b - a) else pos (a - b)

unfoldable pub ◌+ℤ◌ : ℤ → ℤ → ℤ
a +ℤ b = sub_ℕ (pos_part a + pos_part b) (neg_part a + neg_part b)

unfoldable pub ◌-ℤ◌ : ℤ → ℤ → ℤ
a -ℤ b = sub_ℕ (pos_part a + neg_part b) (neg_part a + pos_part b)

-- `v` is a value of `int64_t`.
abbrev pub is_i64 : ℤ → Bool
is_i64 (pos n) = ltb n (2 ^ 63)
is_i64 (negsuc n) = ltb n (2 ^ 63)

pub as_i64-small : (n : ℕ) → suc n ≤ 2 ^ 63 → as_i64 n ≡ pos n
unfolding as_i64
as_i64-small n h = ground arith

pub +ℤ-pos : (a b : ℕ) → pos a +ℤ pos b ≡ pos (a + b)
unfolding ◌+ℤ◌
+ℤ-pos a b = ground arith
