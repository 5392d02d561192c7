-- ===== src/Base/Text.antt =====
-- Text as bytes: literals, `std::string::operator==`, `rfind(prefix, 0)`, `to_string`.
use Prim.Native.Nat.{ℕ, zero, suc, ◌+◌, ◌/◌, ◌%◌}
use Prim.Native.Char.{code}
use Prim.Native.String.{String}
use mathlib.Core.Path.{◌≡◌, refl}
use mathlib.Core.Logic.{◌↔◌, ◌≢◌, inl, inr}
use mathlib.Core.Bool.{Bool, true, false, ◌&&◌}
use mathlib.Core.List.{List, [], ◌∷◌, ◌++◌}
use native.Mathlib.Omega.{arith}
use sdr_plugin_txlink_wsjt_x.Base.Tests.{◌==◌, ltb, if◌then◌else◌, Bool-cases}

abbrev pub Bytes : Type 0
Bytes = List ℕ

-- The bytes of an ASCII literal.
abbrev pub codes : String → Bytes
codes String.[] = []
codes (String.◌∷◌ c s) = code c ∷ codes s

unfoldable pub str_eq : Bytes → Bytes → Bool
str_eq [] [] = true
str_eq (x ∷ xs) (y ∷ ys) = x == y && str_eq xs ys
str_eq _ _ = false

pub str_eq_iff : (xs ys : Bytes) → (str_eq xs ys ≡ true) ↔ (xs ≡ ys)
unfolding str_eq
str_eq_iff [] [] = ((λ _. refl), (λ _. refl))
str_eq_iff [] (y ∷ ys) = ((λ h. cc), (λ h. cc))
str_eq_iff (x ∷ xs) [] = ((λ h. cc), (λ h. cc))
str_eq_iff (x ∷ xs) (y ∷ ys) = ground (arith, str_eq_iff xs ys)

pub str_eq_refl : (xs : Bytes) → str_eq xs xs ≡ true
str_eq_refl xs = (str_eq_iff xs xs).1 refl

pub str_eq_ne : (xs ys : Bytes) → xs ≢ ys → str_eq xs ys ≡ false
str_eq_ne xs ys h = elim (Bool-cases (str_eq xs ys)) [
  | inl e ↦ absurd (h ((str_eq_iff xs ys).0 e))
  | inr e ↦ e
]

-- `s.rfind(prefix, 0) == 0`.
unfoldable pub starts_with : Bytes → Bytes → Bool
starts_with [] s = true
starts_with (p ∷ ps) [] = false
starts_with (p ∷ ps) (c ∷ s) = p == c && starts_with ps s

pub starts_with-append : (p s : Bytes) → starts_with p (p ++ s) ≡ true
unfolding starts_with
starts_with-append [] s = refl
starts_with-append (c ∷ p) s = ground (arith, starts_with-append p s)

-- `std::to_string` of an unsigned number; the number itself is fuel enough.
unfoldable pub digits_onto : ℕ → ℕ → Bytes → Bytes
digits_onto zero n out = ((n % 10) + b'0') ∷ out
digits_onto (suc f) n out =
    let more = digits_onto f (n / 10) (((n % 10) + b'0') ∷ out) in
    if ltb n 10 then ((n % 10) + b'0') ∷ out else more

unfoldable pub to_string : ℕ → Bytes
unfolding digits_onto
to_string n = digits_onto n n []
