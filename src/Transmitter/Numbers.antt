-- ===== src/Transmitter/Numbers.antt =====
-- The C library of the Arduino, as far as the sketch calls it: `atoi`, `atol`, `abs`, `toupper`.
pub mod Digits
use sdr_plugin_txlink_wsjt_x.Base.{
  ℕ, suc, ◌+◌, ◌-◌, ◌*◌, ◌%◌, ◌^◌, List, [], ◌∷◌, Bool, ◌&&◌, ◌||◌, Bytes, ℤ, pos, negsuc, ◌==◌,
  leb, ltb, if◌then◌else◌, to_signed, pos_part, neg_part,
}

abbrev pub is_digit : ℕ → Bool
is_digit c = leb b'0' c && leb c b'9'

abbrev pub is_space : ℕ → Bool
is_space c = c == 32 || leb 9 c && leb c 13

-- The digits at the start of a text, read onto a number.
unfoldable pub read_digits : ℕ → Bytes → ℕ
read_digits n [] = n
read_digits n (c ∷ s) =
    let rest = read_digits (10 * n + (c - b'0')) s in if is_digit c then rest else n

unfoldable pub negate : ℕ → ℤ
negate ℕ.zero = pos 0
negate (suc n) = negsuc n

unfoldable pub read_signed : Bytes → ℤ
unfolding read_digits negate
read_signed [] = pos 0
read_signed (c ∷ s) =
    if c == b'-'
    then negate (read_digits 0 s)
    else if c == b'+'
    then pos (read_digits 0 s)
    else pos (read_digits 0 (c ∷ s))

unfoldable pub read_number : Bytes → ℤ
unfolding read_signed
read_number [] = pos 0
read_number (c ∷ s) = let rest = read_number s in if is_space c then rest else read_signed (c ∷ s)

-- An integer in a signed type of `w` bytes: its low bits stay.
abbrev pub wrap : ℕ → ℤ → ℤ
wrap w (pos n) = to_signed w (n % 256 ^ w)
wrap w (negsuc n) = to_signed w (256 ^ w - 1 - n % 256 ^ w)

unfoldable pub atoi : Bytes → ℤ
unfolding read_number
atoi s = wrap 2 (read_number s)

unfoldable pub atol : Bytes → ℤ
unfolding read_number
atol s = wrap 4 (read_number s)

abbrev pub abs : ℤ → ℕ
abs z = pos_part z + neg_part z

abbrev pub scale : ℕ → ℤ → ℤ
scale k (pos n) = pos (k * n)
scale k (negsuc n) = negsuc (k * suc n - 1)

abbrev pub is_zero : ℤ → Bool
is_zero (pos n) = n == 0
is_zero (negsuc n) = Bool.false

unfoldable pub toupper : ℕ → ℕ
toupper c = if leb b'a' c && leb c b'z' then c - 32 else c
