-- ===== src/Base/Int.antt =====
-- Signed integers, under the library's names (its ℤ stands on the unary ℕ).
use Prim.Native.Nat.{ℕ, suc, ◌+◌, ◌-◌, ◌*◌, ◌^◌, ◌<◌}
use mathlib.Core.Path.{◌≡◌}
use mathlib.Core.Bool.{Bool}
use native.Mathlib.Omega.{arith}
use sdr_plugin_txlink_wsjt_x.Base.Tests.{leb, ltb, if◌then◌else◌}

-- `negsuc n` is -(n + 1).
pub data ℤ : Type 0 where
  pos : ℕ → ℤ
  negsuc : ℕ → ℤ

abbrev pub pos_part : ℤ → ℕ
pos_part (pos n) = n
pos_part (negsuc n) = 0

abbrev pub neg_part : ℤ → ℕ
neg_part (pos n) = 0
neg_part (negsuc n) = suc n

-- a - b, as an integer.
abbrev pub sub_ℕ : ℕ → ℕ → ℤ
sub_ℕ a b = if leb b a then pos (a - b) else negsuc (b - a - 1)

infixl 65 ◌+ℤ◌ ◌-ℤ◌
unfoldable pub ◌+ℤ◌ : ℤ → ℤ → ℤ
a +ℤ b = sub_ℕ (pos_part a + pos_part b) (neg_part a + neg_part b)

unfoldable pub ◌-ℤ◌ : ℤ → ℤ → ℤ
a -ℤ b = sub_ℕ (pos_part a + neg_part b) (neg_part a + pos_part b)

abbrev pub ltb_ℤ : ℤ → ℤ → Bool
ltb_ℤ a b = ltb (pos_part a + neg_part b) (pos_part b + neg_part a)

-- The `w`-byte two's complement integer with bit pattern `u`.
abbrev pub to_signed : ℕ → ℕ → ℤ
to_signed w u = if ltb (2 * u) (256 ^ w) then pos u else negsuc (256 ^ w - u - 1)

-- The conversion of an integer to the unsigned type of `w` bytes.
abbrev pub to_unsigned : ℕ → ℤ → ℕ
to_unsigned w (pos n) = n
to_unsigned w (negsuc n) = 256 ^ w - n - 1

pub to_unsigned-to_signed : (w u : ℕ) → u < 256 ^ w → to_unsigned w (to_signed w u) ≡ u
to_unsigned-to_signed w u h = ground arith
