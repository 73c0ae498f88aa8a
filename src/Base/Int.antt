-- ===== src/Base/Int.antt =====
-- Signed integers over the native numbers, and the wrap-around of Go's `int64` and `int`.
use kazakh_express.Base.Tests.{ltb, leb, if◌then◌else◌}
use Prim.Native.Nat.{ℕ, suc, ◌+◌, ◌-◌, ◌*◌, ◌%◌, ◌≤◌, ◌<◌}
use mathlib.Core.Path.{◌≡◌}
use mathlib.Core.Bool.{Bool, true, ◌&&◌}
use native.Mathlib.Omega.{arith}

-- `negsuc n` is -(n + 1).
pub data ℤ : Type 0 where
  pos : ℕ → ℤ
  negsuc : ℕ → ℤ

abbrev pub pos_part : ℤ → ℕ
pos_part (pos n) = n
pos_part (negsuc _) = 0

abbrev pub neg_part : ℤ → ℕ
neg_part (pos _) = 0
neg_part (negsuc n) = suc n

-- a - b, as an integer.
abbrev pub sub_ℕ : ℕ → ℕ → ℤ
sub_ℕ a b = if leb b a then pos (a - b) else negsuc (b - a - 1)

infixl 65 ◌+ℤ◌ ◌-ℤ◌
infixl 70 ◌*ℤ◌
infix 50 ◌≤ℤ◌
unfoldable pub ◌+ℤ◌ : ℤ → ℤ → ℤ
a +ℤ b = sub_ℕ (pos_part a + pos_part b) (neg_part a + neg_part b)

unfoldable pub ◌-ℤ◌ : ℤ → ℤ → ℤ
a -ℤ b = sub_ℕ (pos_part a + neg_part b) (neg_part a + pos_part b)

unfoldable pub ◌*ℤ◌ : ℤ → ℤ → ℤ
a *ℤ b =
    sub_ℕ (pos_part a * pos_part b + neg_part a * neg_part b)
      (pos_part a * neg_part b + neg_part a * pos_part b)

abbrev pub ◌≤ℤ◌ : ℤ → ℤ → Type 0
a ≤ℤ b = pos_part a + neg_part b ≤ pos_part b + neg_part a

abbrev pub ltb_ℤ : ℤ → ℤ → Bool
ltb_ℤ a b = ltb (pos_part a + neg_part b) (pos_part b + neg_part a)

abbrev pub leb_ℤ : ℤ → ℤ → Bool
leb_ℤ a b = leb (pos_part a + neg_part b) (pos_part b + neg_part a)

-- 2 ^ 63 and 2 ^ 64.
abbrev pub sign_bit : ℕ
sign_bit = 9223372036854775808

abbrev pub word : ℕ
word = 18446744073709551616

-- The 64-bit pattern of an integer, and the signed value of a pattern.
abbrev pub to_bits : ℤ → ℕ
to_bits (pos n) = n % word
to_bits (negsuc n) = word - 1 - n % word

abbrev pub of_bits : ℕ → ℤ
of_bits b = if ltb b sign_bit then pos b else negsuc (word - 1 - b)

-- The value of an `int64` (or `int`) expression: the exact result, wrapped to 64 bits.
unfoldable pub wrap64 : ℤ → ℤ
wrap64 a = of_bits (to_bits a)

-- The values that an `int64` holds.
abbrev pub Fits64 : ℤ → Type 0
Fits64 a = (pos_part a < sign_bit) × (neg_part a ≤ sign_bit)

-- A Postgres INTEGER holds 32 bits.
abbrev pub fits32 : ℤ → Bool
fits32 a = ltb (pos_part a) 2147483648 && leb (neg_part a) 2147483648

-- The conversion `int32(a)`: the lowest 32 bits, as a signed number.
abbrev pub low_bits : ℤ → ℕ
low_bits (pos n) = n % 4294967296
low_bits (negsuc n) = 4294967295 - n % 4294967296

unfoldable pub wrap32 : ℤ → ℤ
wrap32 a =
    if ltb (low_bits a) 2147483648 then pos (low_bits a) else negsuc (4294967295 - low_bits a)

pub wrap32_fits : (a : ℤ) → fits32 a ≡ true → wrap32 a ≡ a
unfolding wrap32
wrap32_fits (pos n) h = ground arith
wrap32_fits (negsuc n) h = ground arith

pub wrap32-fits32 : (a : ℤ) → fits32 (wrap32 a) ≡ true
unfolding wrap32
wrap32-fits32 a = ground arith

pub wrap64-Fits64 : (a : ℤ) → Fits64 (wrap64 a)
unfolding wrap64
wrap64-Fits64 a = ground arith

pub wrap64_fits : (a : ℤ) → Fits64 a → wrap64 a ≡ a
unfolding wrap64
wrap64_fits (pos n) h = ground arith
wrap64_fits (negsuc n) h = ground arith

pub +ℤ_parts :
    (a b : ℤ)
    → pos_part (a +ℤ b) + neg_part a + neg_part b ≡ neg_part (a +ℤ b) + pos_part a + pos_part b
unfolding ◌+ℤ◌
+ℤ_parts a b = ground arith

pub -ℤ_parts :
    (a b : ℤ)
    → pos_part (a -ℤ b) + neg_part a + pos_part b ≡ neg_part (a -ℤ b) + pos_part a + neg_part b
unfolding ◌-ℤ◌
-ℤ_parts a b = ground arith

pub eq_of_parts : (a b : ℤ) → pos_part a + neg_part b ≡ pos_part b + neg_part a → a ≡ b
eq_of_parts a b h = ground arith

pub ruleset int_laws = (arith, +ℤ_parts, -ℤ_parts, eq_of_parts)

pub +ℤ-pos : (a b : ℕ) → pos a +ℤ pos b ≡ pos (a + b)
unfolding ◌+ℤ◌
+ℤ-pos a b = ground arith

pub *ℤ-pos : (a b : ℕ) → pos a *ℤ pos b ≡ pos (a * b)
unfolding ◌*ℤ◌
*ℤ-pos a b = grind arith

pub wrap64-pos : (n : ℕ) → n < sign_bit → wrap64 (pos n) ≡ pos n
wrap64-pos n h = wrap64_fits (pos n) (h, omega arith)
