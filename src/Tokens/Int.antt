-- ===== src/Tokens/Int.antt =====
-- Go's int64: signed integers over the native numbers, and the wrap-around of a product.
use fabric_x_samples.Prelude.{ℕ, suc, ◌+◌, ◌-◌, ◌*◌, ◌%◌, ◌^◌, ◌≤◌, Bool, leb, ltb, if◌then◌else◌}

-- `negsuc n` is -(n + 1).
pub data ℤ : Type 0 where
  pos : ℕ → ℤ
  negsuc : ℕ → ℤ

abbrev pub pos_part : ℤ → ℕ
pos_part (pos n) = n
pos_part (negsuc n) = 0

abbrev pub neg_part : ℤ → ℕ
neg_part (pos n) = 0
neg_part (negsuc n) = suc n

infix 50 ◌≤ℤ◌
abbrev pub ◌≤ℤ◌ : ℤ → ℤ → Type 0
a ≤ℤ b = pos_part a + neg_part b ≤ pos_part b + neg_part a

abbrev pub ltb_ℤ : ℤ → ℤ → Bool
ltb_ℤ a b = ltb (pos_part a + neg_part b) (pos_part b + neg_part a)

-- The int64 with the low 64 bits of an integer.
abbrev of_word : ℕ → ℤ
of_word r = if ltb r (2 ^ 63) then pos r else negsuc (2 ^ 64 - 1 - r)

abbrev pub wrap_int64 : ℤ → ℤ
wrap_int64 (pos n) = of_word (n % 2 ^ 64)
wrap_int64 (negsuc n) = of_word (2 ^ 64 - 1 - n % 2 ^ 64)

-- A product of int64 values by a constant that is not negative.
abbrev pub scale_int64 : ℤ → ℕ → ℤ
scale_int64 (pos n) k = wrap_int64 (pos (n * k))
scale_int64 (negsuc n) k = wrap_int64 (if leb k 0 then pos 0 else negsuc (suc n * k - 1))
