-- ===== src/Transmitter/Chip.antt =====
-- TXlink4_Nano/AD9851.h: the frequency tuning words of the AD9851. What is sent to the chip stands
-- in the effects of the sketch.
pub mod Tuning
use sdr_plugin_txlink_wsjt_x.Base.{
  ℕ, zero, suc, ◌+◌, ◌-◌, ◌*◌, ◌/◌, ◌%◌, ◌^◌, ℤ, pos, negsuc, ◌==◌, if◌then◌else◌,
}

pub record Dds : Type 0 where
  pub reciprocal : ℕ
  pub shift : ℕ
  pub current_ftw : ℕ

abbrev pub core_clock : ℕ
core_clock = 180_000_000

abbrev pub nano : ℕ
nano = 1_000_000_000

-- 1000000000ULL - calibration, in 64 bits.
abbrev pub less_calibration : ℤ → ℕ
less_calibration (pos n) = (nano + 2 ^ 64 - n) % 2 ^ 64
less_calibration (negsuc n) = nano + suc n

unfoldable pub calibrated_clock : ℤ → ℕ
calibrated_clock c = (core_clock * less_calibration c) % 2 ^ 64 / nano % 2 ^ 32

-- The loop of `setClock`: the shift that is left when bit 32 of the scaled clock is set.
unfoldable pub find_shift : ℕ → ℕ → ℕ
find_shift zero scaled = zero
find_shift (suc shift) scaled =
    let rest = find_shift shift (2 * scaled) in
    if (scaled / 2 ^ 32) % 2 == 0 then rest else suc shift

-- `setClock`.
unfoldable pub set_clock : ℤ → Dds → Dds
unfolding calibrated_clock find_shift
set_clock c d =
    let clock : ℕ = calibrated_clock c in
    let shift : ℕ = find_shift 32 clock in
    record d { reciprocal = 2 ^ (32 + shift) / clock % 2 ^ 32; shift = shift }

-- `frequencyFTW`: the product and the sum stay below 2 ^ 64.
unfoldable pub frequency_ftw : Dds → ℕ → ℕ
frequency_ftw d freq_x10 =
    (freq_x10 * (d.reciprocal / 10) + d.reciprocal / 16 / 10) / 2 ^ d.shift % 2 ^ 32
