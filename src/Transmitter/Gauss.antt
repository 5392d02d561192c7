-- ===== src/Transmitter/Gauss.antt =====
-- TXlink4_Nano/TXlink4_Nano.ino: the tuning words of the tones, and of the transition from one tone
-- to the next, which follows a Gaussian curve.
pub mod Transition
use sdr_plugin_txlink_wsjt_x.Base.{
  ℕ, zero, suc, ◌+◌, ◌-◌, ◌*◌, ◌/◌, ◌%◌, ◌^◌, List, [], ◌∷◌, ◌++◌, ℤ, pos, negsuc, if◌then◌else◌,
  ltb, leb, to_signed,
}
use sdr_plugin_txlink_wsjt_x.Transmitter.{Tones}

-- `Gaussian_G_Scaled` behind its first entry, 0.
abbrev pub gaussian_g_scaled : List ℕ
gaussian_g_scaled =
    518 ∷ 705 ∷ 948 ∷ 1264 ∷ 1667 ∷ 2177 ∷ 2815 ∷ 3602 ∷ 4565 ∷ 5726 ∷ 7110 ∷ 8741 ∷ 10638 ∷ 12817
    ∷ 15288 ∷ 18052 ∷ 21102 ∷ 24421 ∷ 27978 ∷ 31732 ∷ 35630 ∷ 39604 ∷ 43582 ∷ 47477 ∷ 51203 ∷ 54668
    ∷ 57782 ∷ 60461 ∷ 62631 ∷ 64228 ∷ 65206 ∷ 65535 ∷ []

-- `FTWincr` of a symbol.
unfoldable pub ftw_incr : Tones → ℕ → ℕ
ftw_incr t symbol = (symbol * t.tone_spacing_ftw_incr_x100 + 50) / 100

-- The interpolated fraction `gLUTinterp`, in 16 bits.
unfoldable pub interpolate : ℕ → ℕ → ℕ → ℕ → ℕ
interpolate previous current factor h =
    (previous + (current + 65536 - previous) % 65536 / factor * h) % 65536

-- (FTW_CHANGE_SCALED + ROUNDING_OFFSET) >> 16 of a signed change: rounded to the nearest.
unfoldable pub scaled_change : ℕ → ℤ → ℤ
scaled_change fraction (pos d) = pos ((fraction * d + 32768) / 65536)
scaled_change fraction (negsuc d) =
    let down : ℕ = fraction * suc d in
    if leb down 32768 then pos ((32768 - down) / 65536) else negsuc ((down - 32768 - 1) / 65536)

-- A tuning word and a signed change of it, in 32 bits.
unfoldable pub add_change : ℕ → ℤ → ℕ
add_change ftw (pos d) = (ftw + d) % 2 ^ 32
add_change ftw (negsuc d) = (ftw + 2 ^ 32 - suc d % 2 ^ 32) % 2 ^ 32

-- `gTranFTW`: the change is that of the two words as an `int32_t`.
unfoldable pub transition_ftw : ℕ → ℕ → ℕ → ℕ
unfolding scaled_change add_change
transition_ftw last next fraction =
    add_change last (scaled_change fraction (to_signed 4 ((next + 2 ^ 32 - last) % 2 ^ 32)))

-- The inner loop: `left` steps to go after the step `h`.
unfoldable pub inner_steps : ℕ → ℕ → ℕ → ℕ → ℕ → ℕ → ℕ → List ℕ
unfolding interpolate transition_ftw
inner_steps last next previous current factor zero h = []
inner_steps last next previous current factor (suc left) h =
    transition_ftw last next (interpolate previous current factor (suc h))
    ∷ inner_steps last next previous current factor left (suc h)

-- The outer loop over the table: every word that is sent to the chip, in order.
unfoldable pub transition_steps : ℕ → ℕ → ℕ → ℕ → List ℕ → List ℕ
unfolding inner_steps
transition_steps last next factor previous [] = []
transition_steps last next factor previous (current ∷ table) =
    inner_steps last next previous current factor factor 0
    ++ transition_steps last next factor current table

unfoldable pub transition : Tones → ℕ → ℕ → List ℕ
unfolding transition_steps
transition t last next = transition_steps last next t.g_tran_interp_factor 0 gaussian_g_scaled
