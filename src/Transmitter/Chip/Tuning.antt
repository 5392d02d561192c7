-- ===== src/Transmitter/Chip/Tuning.antt =====
-- TXlink4_Nano/AD9851.h: how exact the tuning words are.
use native.Mathlib.Nat.{mul-lt-mul_of_pos_right, mul-le-mul_right}
use sdr_plugin_txlink_wsjt_x.Base.{
  ℕ, zero, suc, ◌+◌, ◌-◌, ◌*◌, ◌/◌, ◌%◌, ◌^◌, ◌≤◌, ◌<◌, ◌≡◌, refl, inl, inr, ◌⊎◌, arith, ℤ, pos,
  negsuc, ◌==◌, Bool-cases,
}
use sdr_plugin_txlink_wsjt_x.Transmitter.Chip.{
  Dds, find_shift, set_clock, frequency_ftw, calibrated_clock,
}

-- The clock of the chip, not calibrated.
abbrev plain : Dds → Dds
plain d = set_clock (pos 0) d

plain_lem :
    (d : Dds)
    → plain d ≡ record { reciprocal = 3_202_559_735; shift = 27; current_ftw = d.current_ftw }
unfolding set_clock calibrated_clock find_shift
plain_lem d = refl

-- With no calibration and up to 60 MHz, the tuning word is less than the exact one by at most five,
-- and greater by at most 2 ^ 28 / 1.8e9.
pub frequency_ftw-close :
    (d : Dds) (f : ℕ)
    → f ≤ 600_000_000
    → f * 2 ^ 32 ≤ (frequency_ftw (set_clock (pos 0) d) f + 5) * 1_800_000_000
      × frequency_ftw (set_clock (pos 0) d) f * 1_800_000_000 ≤ f * 2 ^ 32 + 2 ^ 28
unfolding frequency_ftw
frequency_ftw-close d f h = rw (plain_lem d) (omega arith)

double_pow : (x e : ℕ) → x * 2 ^ suc e ≡ 2 * x * 2 ^ e
double_pow x e = grind arith

find_shift-lem :
    (s x : ℕ)
    → x < 2 ^ 33
    → 2 ^ 32 ≤ x * 2 ^ s
    → (e : ℕ) × (e + find_shift s x ≡ s × 2 ^ 32 ≤ x * 2 ^ e × x * 2 ^ e < 2 ^ 33)
unfolding find_shift
find_shift-lem zero x h k = (0, (refl, k, omega arith))
find_shift-lem (suc s) x h k = elim (Bool-cases ((x / 2 ^ 32) % 2 == 0)) [
  | inr e ↦ (0, rw e (omega arith, ground (arith, e), omega arith))
  | inl e ↦
      let r = find_shift-lem s (2 * x) (ground arith) (omega (arith, double_pow x s)) in
      (
        suc r.0,
        rw e (
          omega (arith, r.1.0),
          omega (arith, double_pow x r.0, r.1.1),
          omega (arith, double_pow x r.0, r.1.2),
        ),
      )
]

small_factor : (q k : ℕ) → q * k ≤ 2 ^ 64 → 2 ^ 32 < k → q < 2 ^ 32
small_factor q k a b = grind arith

large_factor : (q k : ℕ) → 2 ^ 64 < (q + 1) * k → k < 2 ^ 33 → 2 ^ 31 ≤ q
large_factor q k a b = grind arith

div_bounds : (p c : ℕ) → 0 < c → p / c * c ≤ p × p < (p / c + 1) * c
div_bounds p c h = omega arith

pow_add : (a e : ℕ) → 2 ^ a * 2 ^ e ≡ 2 ^ (a + e)
pow_add a zero = grind arith
pow_add a (suc e) =
    let sum : a + suc e ≡ suc (a + e) = omega arith in
    rw sum (grind (arith, double_pow (2 ^ a) e, double_pow 1 (a + e), pow_add a e))

pow_pos : (e : ℕ) → 0 < 2 ^ e
pow_pos zero = omega arith
pow_pos (suc e) = grind (arith, double_pow 1 e, pow_pos e)

-- The quotient of `setClock` for a clock whose scaled value has its top bit at 32.
module _ (c sh e : ℕ) (used : 0 < c) (all : e + sh ≡ 32) (low : 2 ^ 32 ≤ c * 2 ^ e)
    (high : c * 2 ^ e < 2 ^ 33) where
  scaled : (q : ℕ) → q * c * 2 ^ e ≡ q * (c * 2 ^ e)
  scaled q = grind arith

  whole : 2 ^ (32 + sh) * 2 ^ e ≡ 2 ^ 64
  whole = let sum : 32 + sh + e ≡ 64 = omega arith in rw (pow_add (32 + sh) e, sum) refl

  within : 2 ^ (32 + sh) / c * c ≤ 2 ^ (32 + sh) × 2 ^ (32 + sh) < (2 ^ (32 + sh) / c + 1) * c
  within = div_bounds (2 ^ (32 + sh)) c used

  quotient-large : 2 ^ 31 ≤ 2 ^ (32 + sh) / c
  quotient-large =
      large_factor (2 ^ (32 + sh) / c) (c * 2 ^ e)
        (rw (whole, scaled (2 ^ (32 + sh) / c + 1)) at
          (mul-lt-mul_of_pos_right {k = 2 ^ e} (within.1) (pow_pos e)))
        high

  quotient-small : 2 ^ 32 < c * 2 ^ e → 2 ^ (32 + sh) / c < 2 ^ 32
  quotient-small k =
      small_factor (2 ^ (32 + sh) / c) (c * 2 ^ e)
        (rw (whole, scaled (2 ^ (32 + sh) / c)) at (mul-le-mul_right (2 ^ e) (within.0))) k

  quotient-tight : c * 2 ^ e ≡ 2 ^ 32 → 2 ^ (32 + sh) / c ≡ 2 ^ 32
  quotient-tight t =
      let over =
        rw (whole, scaled (2 ^ (32 + sh) / c + 1), t) at
          (mul-lt-mul_of_pos_right {k = 2 ^ e} (within.1) (pow_pos e)) in
      let under =
        rw (whole, scaled (2 ^ (32 + sh) / c), t) at (mul-le-mul_right (2 ^ e) (within.0)) in
      omega arith

  normalised :
      let q : ℕ = 2 ^ (32 + sh) / c % 2 ^ 32 in
      (c * 2 ^ (32 - sh) ≡ 2 ^ 32 × q ≡ 0)
      ⊎ (2 ^ 31 ≤ q × q * c ≤ 2 ^ (32 + sh) × 2 ^ (32 + sh) < (q + 1) * c)
  normalised = elim (top (c * 2 ^ e) low) [
    | inl tight ↦
        let left : 32 - sh ≡ e = omega arith in
        inl (rw left tight, omega (arith, quotient-tight tight))
    | inr more ↦
        let small = quotient-small more in
        let kept : 2 ^ (32 + sh) / c % 2 ^ 32 ≡ 2 ^ (32 + sh) / c = omega arith in
        inr (rw kept (quotient-large, within.0, within.1))
  ]
    where
      top : (n : ℕ) → 2 ^ 32 ≤ n → (n ≡ 2 ^ 32) ⊎ (2 ^ 32 < n)
      top n h = omega arith

calibrated_clock-bound : (cal : ℤ) → calibrated_clock cal < 2 ^ 32
unfolding calibrated_clock
calibrated_clock-bound (pos n) = omega arith
calibrated_clock-bound (negsuc n) = omega arith

-- If the calibrated clock is not zero, then either it is a power of two and the reciprocal is zero,
-- or the reciprocal is the quotient of 2 ^ (32 + shift) by the clock, rounded down, and at least 2
-- ^ 31.
pub set_clock-normalised :
    (cal : ℤ) (d : Dds)
    → 0 < calibrated_clock cal
    → (calibrated_clock cal * 2 ^ (32 - (set_clock cal d).shift) ≡ 2 ^ 32
        × (set_clock cal d).reciprocal ≡ 0)
      ⊎ (2 ^ 31 ≤ (set_clock cal d).reciprocal
          × (set_clock cal d).reciprocal * calibrated_clock cal ≤ 2 ^ (32 + (set_clock cal d).shift)
          × 2 ^ (32 + (set_clock cal d).shift)
            < ((set_clock cal d).reciprocal + 1) * calibrated_clock cal)
unfolding set_clock
set_clock-normalised cal d h =
    let f =
      find_shift-lem 32 (calibrated_clock cal) (omega (arith, calibrated_clock-bound cal))
        (omega arith) in
    normalised (calibrated_clock cal) (find_shift 32 (calibrated_clock cal)) f.0 h f.1.0 f.1.1 f.1.2
