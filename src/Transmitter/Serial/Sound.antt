-- ===== src/Transmitter/Serial/Sound.antt =====
-- TXlink4_Nano/TXlink4_Nano.ino: what holds of the global variables whatever comes over the line.
use sdr_plugin_txlink_wsjt_x.Base.{
  ℕ, zero, suc, ◌-◌, ◌≤◌, ◌<◌, ◌≡◌, refl, ap, ◌≢◌, List, [], ◌∷◌, ◌++◌, Bool, true, false, ◌||◌,
  Bytes, arith, ◌==◌, ltb, length, length-append, length-replicate, replicate, str_eq, codes,
  if◌then◌else◌, ltb→lt, ℤ, pos, negsuc, pos_part,
}
use sdr_plugin_txlink_wsjt_x.Form.Frequency.{eq_ℤ}
use sdr_plugin_txlink_wsjt_x.Transmitter.{Sketch, Tones}
use sdr_plugin_txlink_wsjt_x.Transmitter.Texts.Ring.{IsRing, call, call-IsRing, enqueue, clear}
use sdr_plugin_txlink_wsjt_x.Transmitter.Numbers.{atoi, is_zero}
use sdr_plugin_txlink_wsjt_x.Transmitter.Commands.{
  mode_rtty, mode_ft4, mode_ft8, ft8_tones, ft4_tones, max_command, set_frequency_hz,
  set_frequency_hz_x10, send_tune_khz, set_dds_level_pwm, power_down, power_up, set_tx_level,
  set_ext_pa_level, set_ext_pa_on, set_calibration, set_cur_freq, set_tx_mode, set_dig_defaults,
  set_millis_to_end, set_digi_tx_on, take_message, set_digital_tx_buffer, tones_of,
}
use sdr_plugin_txlink_wsjt_x.Transmitter.Serial.{
  take_char, process_serial_in, run_command, set_hold_time, set_fan_hold_time, set_fan_low_pwm,
  set_tx_max_temp, set_ft8_tx_delay, set_tx_df, with_digital, with_argument, echo, is_atu,
}

-- The parameters are those of the mode, and no mode has more symbols than FT4.
abbrev pub IsSetFor : ℤ → Tones → Type 0
IsSetFor m t =
    (m ≡ mode_ft8 → t ≡ ft8_tones)
    × (m ≡ mode_ft4 → t ≡ ft4_tones)
    × (m ≡ mode_rtty → t.symbol_count ≡ negsuc 0)
    × pos_part t.symbol_count ≤ 105

-- Every text and list lies in its array.
abbrev Holds : Sketch → Type 0
Holds s =
    length s.chr_command ≤ 127
    × length s.digital.ftx_tx_msg ≤ 105
    × length s.digital.tx_buffer ≡ 106
    × IsSetFor s.digital.tx_mode s.tones
    × IsRing s.queue

pub record IsSound (s : Sketch) : Type 0 where
  pub holds : Holds s

pub either {ℓ κ} :
    {A : Type ℓ} (P : A → Type κ) (b : Bool) {x y : A} → P x → P y → P (if b then x else y)
either P true a b = a
either P false a b = b

-- With the test known in each branch.
either_by {ℓ κ} :
    {A : Type ℓ} (P : A → Type κ) (b : Bool) {x y : A}
    → (b ≡ true → P x)
    → (b ≡ false → P y)
    → P (if b then x else y)
either_by P true a b = a refl
either_by P false a b = b refl

pub length-tones_of : (n : ℕ) (s : Bytes) → length (tones_of n s) ≡ n
unfolding tones_of
length-tones_of zero s = refl
length-tones_of (suc n) [] = ap suc (length-tones_of n [])
length-tones_of (suc n) (c ∷ s) = ap suc (length-tones_of n s)

eq_ℤ-pos : (m : ℤ) (k : ℕ) → eq_ℤ m (pos k) ≡ true → m ≡ pos k
eq_ℤ-pos (pos n) k h = ap pos (ground arith)
eq_ℤ-pos (negsuc n) k h = absurd (ground arith)

eq_ℤ-not : (m : ℤ) (k : ℕ) → eq_ℤ m (pos k) ≡ false → m ≢ pos k
eq_ℤ-not m k h e = absurd (let g : eq_ℤ (pos k) (pos k) ≡ false = rw e at h in ground arith)

length_filled : (l : List ℕ) (n : ℕ) → length l ≤ n → length (l ++ replicate (n - length l) 0) ≡ n
length_filled l n h =
    omega (
      arith,
      length-append l (replicate (n - length l) 0),
      length-replicate {A = ℕ} (n - length l) 0,
    )

filled :
    (n : ℕ) (s : Bytes)
    → n ≤ 105
    → length (tones_of n s ++ replicate (106 - length (tones_of n s)) 0) ≡ 106
filled n s h = length_filled (tones_of n s) 106 (omega (arith, length-tones_of n s))

abbrev sound : {s : Sketch} → Holds s → IsSound s
sound h = record { holds = h }

set_digital_tx_buffer-IsSound : (s : Sketch) → IsSound s → IsSound (set_digital_tx_buffer s)
unfolding set_digital_tx_buffer
set_digital_tx_buffer-IsSound s v = either IsSound (eq_ℤ s.digital.tx_mode mode_rtty) v (
    sound (
      v.holds.0,
      v.holds.1,
      filled (pos_part s.tones.symbol_count) _ v.holds.3.3,
      v.holds.3,
      v.holds.4,
    ))

set_dig_defaults-IsSound :
    (s : Sketch) (m : ℤ)
    → IsSound s
    → IsSound (set_dig_defaults (record s { digital = record s.digital { tx_mode = m } }))
unfolding set_dig_defaults
set_dig_defaults-IsSound s m v =
    either_by IsSound (eq_ℤ m mode_ft8)
      (λ e. (sound (v.holds.0, v.holds.1, v.holds.2, is_ft8 (eq_ℤ-pos m 8 e), v.holds.4)))
      (λ e.
        either_by IsSound (eq_ℤ m mode_ft4)
          (λ f. (sound (v.holds.0, v.holds.1, v.holds.2, is_ft4 (eq_ℤ-pos m 4 f), v.holds.4)))
          (λ f.
            either_by IsSound (eq_ℤ m mode_rtty)
              (λ g. (sound (v.holds.0, v.holds.1, v.holds.2, is_rtty (eq_ℤ-pos m 1 g), v.holds.4)))
              (λ g.
                (sound (
                  v.holds.0,
                  v.holds.1,
                  v.holds.2,
                  is_other (eq_ℤ-not m 8 e) (eq_ℤ-not m 4 f) (eq_ℤ-not m 1 g),
                  v.holds.4,
                )))))
  where
    is_ft8 : m ≡ pos 8 → IsSetFor m ft8_tones
    is_ft8 e = ((λ _. refl), (λ f. absurd (cc)), (λ f. absurd (cc)), omega arith)

    is_ft4 : m ≡ pos 4 → IsSetFor m ft4_tones
    is_ft4 e = ((λ f. absurd (cc)), (λ _. refl), (λ f. absurd (cc)), omega arith)

    is_rtty : m ≡ pos 1 → IsSetFor m (record s.tones { symbol_count = negsuc 0 })
    is_rtty e = ((λ f. absurd (cc)), (λ f. absurd (cc)), (λ _. refl), omega arith)

    is_other : m ≢ pos 8 → m ≢ pos 4 → m ≢ pos 1 → IsSetFor m s.tones
    is_other a b c = ((λ e. absurd (a e)), (λ e. absurd (b e)), (λ e. absurd (c e)), v.holds.3.3)

set_tx_mode-IsSound : (a : Bytes) (s : Sketch) → IsSound s → IsSound (set_tx_mode a s)
unfolding set_tx_mode
set_tx_mode-IsSound a s v =
    either IsSound (eq_ℤ (atoi a) s.digital.tx_mode) v (set_dig_defaults-IsSound s (atoi a) v)

set_digi_tx_on-IsSound : (a : Bytes) (s : Sketch) → IsSound s → IsSound (set_digi_tx_on a s)
unfolding set_digi_tx_on call
set_digi_tx_on-IsSound a s v =
    (sound (
      v.holds.0,
      v.holds.1,
      v.holds.2,
      v.holds.3,
      either IsRing (is_zero (atoi a)) (call-IsRing clear s.queue v.holds.4) v.holds.4,
    ))

take_message-IsSound : (m : Bytes) (s : Sketch) → IsSound s → IsSound (take_message m s)
unfolding take_message call
take_message-IsSound m s v =
    either IsSound (eq_ℤ s.digital.tx_mode mode_rtty)
      (sound
        (v.holds.0, v.holds.1, v.holds.2, v.holds.3, call-IsRing (enqueue m) s.queue v.holds.4))
      (either_by IsSound (length m == 105 || length m == 79)
        (λ e.
          either IsSound (str_eq m s.digital.ftx_tx_msg) v
            (sound (v.holds.0, (ground arith), v.holds.2, v.holds.3, v.holds.4)))
        (λ _. v))

echo-IsSound : (a : Bytes) (s : Sketch) → IsSound s → IsSound (echo a s)
unfolding echo
echo-IsSound a s v = sound v.holds

set_tx_level-IsSound : (a : Bytes) (s : Sketch) → IsSound s → IsSound (set_tx_level a s)
unfolding set_tx_level set_dds_level_pwm
set_tx_level-IsSound a s v = sound v.holds

set_ext_pa_level-IsSound : (a : Bytes) (s : Sketch) → IsSound s → IsSound (set_ext_pa_level a s)
unfolding set_ext_pa_level set_dds_level_pwm
set_ext_pa_level-IsSound a s v = sound v.holds

set_ext_pa_on-IsSound : (a : Bytes) (s : Sketch) → IsSound s → IsSound (set_ext_pa_on a s)
unfolding set_ext_pa_on set_dds_level_pwm
set_ext_pa_on-IsSound a s v = sound v.holds

set_calibration-IsSound : (a : Bytes) (s : Sketch) → IsSound s → IsSound (set_calibration a s)
unfolding set_calibration set_frequency_hz set_frequency_hz_x10
set_calibration-IsSound a s v = sound v.holds

set_cur_freq-IsSound : (a : Bytes) (s : Sketch) → IsSound s → IsSound (set_cur_freq a s)
unfolding set_cur_freq set_frequency_hz set_frequency_hz_x10 send_tune_khz
set_cur_freq-IsSound a s v = sound v.holds

set_hold_time-IsSound : (a : Bytes) (s : Sketch) → IsSound s → IsSound (set_hold_time a s)
unfolding set_hold_time
set_hold_time-IsSound a s v = sound v.holds

set_fan_hold_time-IsSound : (a : Bytes) (s : Sketch) → IsSound s → IsSound (set_fan_hold_time a s)
unfolding set_fan_hold_time
set_fan_hold_time-IsSound a s v = sound v.holds

set_fan_low_pwm-IsSound : (a : Bytes) (s : Sketch) → IsSound s → IsSound (set_fan_low_pwm a s)
unfolding set_fan_low_pwm
set_fan_low_pwm-IsSound a s v = sound v.holds

set_tx_max_temp-IsSound : (a : Bytes) (s : Sketch) → IsSound s → IsSound (set_tx_max_temp a s)
unfolding set_tx_max_temp
set_tx_max_temp-IsSound a s v = sound v.holds

set_ft8_tx_delay-IsSound : (a : Bytes) (s : Sketch) → IsSound s → IsSound (set_ft8_tx_delay a s)
unfolding set_ft8_tx_delay
set_ft8_tx_delay-IsSound a s v = sound v.holds

set_tx_df-IsSound : (a : Bytes) (s : Sketch) → IsSound s → IsSound (set_tx_df a s)
unfolding set_tx_df
set_tx_df-IsSound a s v = sound v.holds

set_millis_to_end-IsSound : (a : Bytes) (s : Sketch) → IsSound s → IsSound (set_millis_to_end a s)
unfolding set_millis_to_end
set_millis_to_end-IsSound a s v = sound v.holds

with_digital-IsSound : (c : ℕ) (a : Bytes) (s : Sketch) → IsSound s → IsSound (with_digital c a s)
unfolding with_digital
with_digital-IsSound c a s v = either IsSound (c == b'M') (set_tx_mode-IsSound a s v) (
    either IsSound (c == b'V') (set_ft8_tx_delay-IsSound a s v) (
      either IsSound (c == b'W') (set_millis_to_end-IsSound a s v) (
        either IsSound (c == b'X') (set_digi_tx_on-IsSound a s v) (
          either IsSound (c == b'Y') (set_tx_df-IsSound a s v) (
            either IsSound (c == b'Z')
              (set_digital_tx_buffer-IsSound _ (take_message-IsSound a s v))
              (either IsSound (is_atu (c ∷ a)) (echo-IsSound (c ∷ a) s v) v))))))

with_argument-IsSound : (c : ℕ) (a : Bytes) (s : Sketch) → IsSound s → IsSound (with_argument c a s)
unfolding with_argument
with_argument-IsSound c a s v = either IsSound (c == b'L') (set_tx_level-IsSound a s v) (
    either IsSound (c == b'P') (set_ext_pa_level-IsSound a s v) (
      either IsSound (c == b'Q') (set_ext_pa_on-IsSound a s v) (
        either IsSound (c == b'C') (set_calibration-IsSound a s v) (
          either IsSound (c == b'H') (set_hold_time-IsSound a s v) (
            either IsSound (c == b'B') (set_fan_hold_time-IsSound a s v) (
              either IsSound (c == b'R') (set_fan_low_pwm-IsSound a s v) (
                either IsSound (c == b'T') (set_tx_max_temp-IsSound a s v) (
                  either IsSound (c == b'F') (set_cur_freq-IsSound a s v)
                    (with_digital-IsSound c a s v)))))))))

power_down-IsSound : (s : Sketch) → IsSound s → IsSound (power_down s)
unfolding power_down set_frequency_hz set_frequency_hz_x10
power_down-IsSound s v = sound v.holds

power_up-IsSound : (s : Sketch) → IsSound s → IsSound (power_up s)
unfolding power_up set_frequency_hz set_frequency_hz_x10 send_tune_khz set_dds_level_pwm
power_up-IsSound s v = sound v.holds

run_command-IsSound : (a : Bytes) (s : Sketch) → IsSound s → IsSound (run_command a s)
unfolding run_command
run_command-IsSound [] s v = v
run_command-IsSound (c ∷ a) s v =
    either IsSound (str_eq (c ∷ a) (codes "D")) (power_down-IsSound s v) (
      either IsSound (str_eq (c ∷ a) (codes "U")) (power_up-IsSound s v)
        (with_argument-IsSound c a s v))

take_char-IsSound : (c : ℕ) (s : Sketch) → IsSound s → IsSound (take_char c s)
unfolding take_char
take_char-IsSound c s v =
    let ran = run_command-IsSound s.chr_command s v in
    either IsSound (c == b'{') (sound (omega arith, v.holds.1, v.holds.2, v.holds.3, v.holds.4)) (
      either IsSound (c == b'}')
        (sound (omega arith, ran.holds.1, ran.holds.2, ran.holds.3, ran.holds.4))
        (either IsSound (c == 0) v (
          either_by IsSound (ltb (length s.chr_command) max_command)
            (λ e. (sound (one_more (ltb→lt _ 127 e), v.holds.1, v.holds.2, v.holds.3, v.holds.4)))
            (λ _. v))))
  where
    one_more : length s.chr_command < 127 → length (s.chr_command ++ c ∷ []) ≤ 127
    one_more h = omega (arith, length-append s.chr_command (c ∷ []))

-- Whatever comes over the line, sound globals stay sound: the command, the message, the tone buffer
-- and the texts of the queue lie in their arrays, and the tone parameters are those of the mode.
pub process_serial_in-IsSound :
    (l : Bytes) (s : Sketch) → IsSound s → IsSound (process_serial_in l s)
unfolding process_serial_in
process_serial_in-IsSound [] s v = v
process_serial_in-IsSound (c ∷ l) s v =
    process_serial_in-IsSound l (take_char c s) (take_char-IsSound c s v)
