-- ===== src/Transmitter/Start/Fit.antt =====
-- TXlink4_Nano/TXlink4_Nano.ino: what is left of a late message fits into the time that is left.
use sdr_plugin_txlink_wsjt_x.Base.{
  ℕ, suc, ◌+◌, ◌-◌, ◌*◌, ◌/◌, ◌≤◌, ◌<◌, ◌≡◌, refl, ap, ◌⊎◌, inl, inr, arith, Bool, true, false, not,
  Bool-cases, ℤ, pos, negsuc, ◌-ℤ◌, ltb, leb, ltb_ℤ, if◌then◌else◌, pos_part,
}
use sdr_plugin_txlink_wsjt_x.Transmitter.{Digital, Tones}
use sdr_plugin_txlink_wsjt_x.Transmitter.Commands.{mode_ft4, mode_ft8, ft8_tones, ft4_tones}
use sdr_plugin_txlink_wsjt_x.Transmitter.Start.{time_left, adjust_start, between}

-- From the symbol `i` on, `count` symbols of `duration` ms fit into `left` ms, one more would not
-- if some are left out, and at least the whole symbols of `least` ms are sent.
abbrev pub Fills : ℕ → ℕ → ℕ → ℕ → ℕ → Type 0
Fills count duration least left i =
    (count - i) * duration ≤ left
    × (0 < i → left < (count - i + 1) * duration)
    × least / duration ≤ count - i

between-less :
    (count q : ℕ) → q ≤ count → between (pos count -ℤ pos q) (pos count) ≡ pos (count - q)
unfolding ◌-ℤ◌
between-less count q h =
    let less : leb (0 + q) (count + 0) ≡ true = ground arith in
    let low : ltb (count + 0 - (0 + q) + 0) (0 + 0) ≡ false = ground arith in
    let high : ltb (count + 0) (count + 0 - (0 + q) + 0) ≡ false = ground arith in
    rw (less, low, high) (ap pos (omega arith))

-- The result for a mode of `count` symbols, in the order of the tests.
outcome : ℕ → ℕ → ℕ → ℕ → ℤ → ℤ
outcome count duration kill trunc left =
    if ltb_ℤ left (pos kill)
    then pos count
    else if not (ltb_ℤ (pos trunc) left)
    then between (pos count -ℤ pos (pos_part left / duration)) (pos count)
    else pos 0

-- Too late, or the rest of the message fills the time.
abbrev pub Starts : ℕ → ℕ → ℕ → ℤ → ℤ → Type 0
Starts count duration kill left start =
    (ltb_ℤ left (pos kill) ≡ true × start ≡ pos count)
    ⊎ ((n : ℕ) × (i : ℕ) × (left ≡ pos n
          × kill ≤ n
          × start ≡ pos i
          × Fills count duration kill n i))

outcome-Starts :
    (count duration kill trunc : ℕ)
    → ((n : ℕ) → kill ≤ n → trunc < n → Fills count duration kill n 0)
    → ((n : ℕ)
        → kill ≤ n
        → n ≤ trunc
        → n / duration ≤ count × Fills count duration kill n (count - n / duration))
    → (left : ℤ) → Starts count duration kill left (outcome count duration kill trunc left)
unfolding outcome
outcome-Starts count duration kill trunc whole cut (negsuc n) =
    let late : ltb 0 (kill + suc n) ≡ true = ground arith in inl (late, rw late refl)
outcome-Starts count duration kill trunc whole cut (pos n) =
    elim (Bool-cases (ltb (n + 0) (kill + 0))) [
      | inl late ↦ inl (late, rw late refl)
      | inr e ↦ elim (Bool-cases (ltb (trunc + 0) (n + 0))) [
        | inl f ↦
            inr (n, 0, (refl, ground arith, rw (e, f) refl, whole n (ground arith) (ground arith)))
        | inr f ↦
            let (less, fills) = cut n (ground arith) (ground arith) in
            inr (
              n,
              count - n / duration,
              (refl, ground arith, rw (e, f) (between-less count (n / duration) less), fills),
            )
      ]
    ]

outcome-ft8 : (left : ℤ) → Starts 79 160 5500 left (outcome 79 160 5500 12650 left)
outcome-ft8 =
    outcome-Starts 79 160 5500 12650 (λ n k h. (omega arith, (λ z. omega arith), omega arith))
      (λ n k h. (omega arith, (omega arith, (λ z. omega arith), omega arith)))

outcome-ft4 : (left : ℤ) → Starts 105 48 2020 left (outcome 105 48 2020 5040 left)
outcome-ft4 =
    outcome-Starts 105 48 2020 5040 (λ n k h. (omega arith, (λ z. omega arith), omega arith))
      (λ n k h. (omega arith, (omega arith, (λ z. omega arith), omega arith)))

abbrev pub tones_for : Bool → Tones
tones_for ft4_on = if ft4_on then ft4_tones else ft8_tones

abbrev pub least_time : Bool → ℕ
least_time ft4_on = if ft4_on then 2020 else 5500

-- In FT8 and FT4: with less than the least time left (5500 and 2020 ms) the start is behind the
-- last symbol. Else the symbols from the start on fit into the time that is left, one more would
-- not fit if some are left out, and at least the whole symbols of the least time are sent: 34 of 79
-- in FT8, 42 of 105 in FT4.
pub adjust_start-Starts :
    (b : Bool) (d : Digital)
    → d.tx_mode ≡ (if b then mode_ft4 else mode_ft8)
    → Starts
        (pos_part (tones_for b).symbol_count)
        (tones_for b).tone_duration
        (least_time b)
        (time_left d)
        (adjust_start d (tones_for b))
unfolding adjust_start outcome
adjust_start-Starts true d e = rw e (outcome-ft4 _)
adjust_start-Starts false d e = rw e (outcome-ft8 _)
