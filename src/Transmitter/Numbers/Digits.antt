-- ===== src/Transmitter/Numbers/Digits.antt =====
-- `atoi` and `atol` read what `std::to_string` writes.
use native.Mathlib.Nat.{mod-eq_of_lt as mod_small}
use sdr_plugin_txlink_wsjt_x.Base.{
  ℕ, zero, suc, ◌+◌, ◌-◌, ◌*◌, ◌/◌, ◌%◌, ◌^◌, ◌≤◌, ◌<◌, ◌≡◌, refl, ap, ◌∙◌, inl, inr, [], ◌∷◌, true,
  false, Bytes, ℤ, pos, negsuc, ◌==◌, Bool-cases, ltb, arith, to_string, digits_onto,
}
use sdr_plugin_txlink_wsjt_x.Form.{signed_to_string}
use sdr_plugin_txlink_wsjt_x.Transmitter.Numbers.{
  is_digit, is_space, read_digits, read_signed, read_number, negate, atoi, atol, wrap,
}

read_digits-step :
    (k d : ℕ) (s : Bytes) → d < 10 → read_digits k ((d + b'0') ∷ s) ≡ read_digits (10 * k + d) s
unfolding read_digits
read_digits-step k d s h =
    let digit : is_digit (d + b'0') ≡ true = ground arith in
    let value : d + b'0' - b'0' ≡ d = omega arith in rw (digit, value) refl

read_digits-digits_onto :
    (f n : ℕ) (out : Bytes) → n ≤ f → read_digits 0 (digits_onto f n out) ≡ read_digits n out
unfolding digits_onto
read_digits-digits_onto zero n out h =
    read_digits-step 0 (n % 10) out (omega arith) ∙ ap (λ k. read_digits k out) (omega arith)
read_digits-digits_onto (suc f) n out h = elim (Bool-cases (ltb n 10)) [
  | inl small ↦
      rw small
        (read_digits-step 0 (n % 10) out (omega arith) ∙ ap (λ k. read_digits k out) (ground arith))
  | inr large ↦ rw large (
      read_digits-digits_onto f (n / 10) (((n % 10) + b'0') ∷ out) (omega arith)
      ∙ read_digits-step (n / 10) (n % 10) out (omega arith)
      ∙ ap (λ k. read_digits k out) (omega arith))
]

-- A text that starts with a digit.
data StartsDigit : Bytes → Type 0 where
  digit_first : (c : ℕ) (s : Bytes) → 48 ≤ c → c ≤ 57 → StartsDigit (c ∷ s)

digits_onto-StartsDigit : (f n : ℕ) (out : Bytes) → StartsDigit (digits_onto f n out)
unfolding digits_onto
digits_onto-StartsDigit zero n out = digit_first _ _ (omega arith) (omega arith)
digits_onto-StartsDigit (suc f) n out = elim (Bool-cases (ltb n 10)) [
  | inl small ↦ rw small (digit_first _ _ (omega arith) (omega arith))
  | inr large ↦ rw large (digits_onto-StartsDigit f (n / 10) (((n % 10) + b'0') ∷ out))
]

read_number-digits : (s : Bytes) → StartsDigit s → read_number s ≡ pos (read_digits 0 s)
unfolding read_number read_signed
read_number-digits _ (digit_first c s l h) =
    let a : is_space c ≡ false = ground arith in
    let b : (c == b'-') ≡ false = ground arith in
    let e : (c == b'+') ≡ false = ground arith in rw (a, b, e) refl

pub read_number-to_string : (n : ℕ) → read_number (to_string n) ≡ pos n
unfolding to_string read_digits
read_number-to_string n =
    read_number-digits (digits_onto n n []) (digits_onto-StartsDigit n n [])
    ∙ ap pos (read_digits-digits_onto n n [] (omega arith))

pub read_number-signed_to_string : (z : ℤ) → read_number (signed_to_string z) ≡ z
unfolding signed_to_string negate read_digits to_string read_number read_signed
read_number-signed_to_string (pos n) = read_number-to_string n
read_number-signed_to_string (negsuc n) =
    ap negate (read_digits-digits_onto (suc n) (suc n) [] (omega arith))

-- The numbers of an `int` and of a `long`.
abbrev pub Fits : ℕ → ℤ → Type 0
Fits m (pos n) = n < m
Fits m (negsuc n) = n < m

wrap-Fits : (w : ℕ) (m : ℕ) → 256 ^ w ≡ 2 * m → (z : ℤ) → Fits m z → wrap w z ≡ z
wrap-Fits w m e (pos n) h =
    let small : n % 256 ^ w ≡ n = rw e (mod_small {m = 2 * m} (omega arith)) in
    let low : ltb (2 * n) (256 ^ w) ≡ true = ground (arith, e) in rw (small, low) refl
wrap-Fits w m e (negsuc n) h =
    let small : n % 256 ^ w ≡ n = rw e (mod_small {m = 2 * m} (omega arith)) in
    let high : ltb (2 * (256 ^ w - 1 - n)) (256 ^ w) ≡ false = ground (arith, e) in
    let back : 256 ^ w - (256 ^ w - 1 - n) - 1 ≡ n = omega (arith, e) in rw (small, high, back) refl

pub atoi-signed_to_string : (z : ℤ) → Fits 32768 z → atoi (signed_to_string z) ≡ z
unfolding atoi
atoi-signed_to_string z h = rw (read_number-signed_to_string z) (wrap-Fits 2 32768 refl z h)

pub atol-signed_to_string : (z : ℤ) → Fits 2_147_483_648 z → atol (signed_to_string z) ≡ z
unfolding atol
atol-signed_to_string z h = rw (read_number-signed_to_string z) (wrap-Fits 4 2_147_483_648 refl z h)
