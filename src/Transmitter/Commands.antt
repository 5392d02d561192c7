-- ===== src/Transmitter/Commands.antt =====
-- TXlink4_Nano/TXlink4_Nano.ino: the commands of the serial line, `ProcessSerialIn`.
use sdr_plugin_txlink_wsjt_x.Base.{
  ℕ, zero, suc, ◌+◌, ◌-◌, ◌*◌, ◌/◌, ◌%◌, ◌^◌, List, [], ◌∷◌, ◌++◌, Bool, true, false, not, ◌||◌,
  Bytes, ℤ, pos, negsuc, ◌==◌, ltb, length, replicate, str_eq, codes, if◌then◌else◌, pos_part,
  to_signed, ltb_ℤ,
}
use sdr_plugin_txlink_wsjt_x.Form.{signed_to_string}
use sdr_plugin_txlink_wsjt_x.Form.Frequency.{eq_ℤ}
use sdr_plugin_txlink_wsjt_x.Transmitter.{
  Tones, Sketch, perform, analog_write, set_ftw, println, tx_level_pin,
}
use sdr_plugin_txlink_wsjt_x.Transmitter.Numbers.{is_digit, atoi, atol, abs, is_zero}
use sdr_plugin_txlink_wsjt_x.Transmitter.Chip.{set_clock, frequency_ftw}
use sdr_plugin_txlink_wsjt_x.Transmitter.Texts.{enqueue_message, clear_queue}

abbrev pub mode_rtty : ℤ
mode_rtty = pos 1

abbrev pub mode_ft4 : ℤ
mode_ft4 = pos 4

abbrev pub mode_ft8 : ℤ
mode_ft8 = pos 8

abbrev pub ft8_symbol_count : ℕ
ft8_symbol_count = 79

abbrev pub ft4_symbol_count : ℕ
ft4_symbol_count = 105

-- The longest command that is kept.
abbrev pub max_command : ℕ
max_command = 127

-- `FT8TxMsgErr`: "ERROR G4AHN".
abbrev pub ft8_tx_msg_err : Bytes
ft8_tx_msg_err =
    codes "3140652000026673266772757272250010533140652177703660737035675174622021543140652"

-- `dds.setFrequencyHz_x10`, with the word that is sent to the chip.
unfoldable pub set_frequency_hz_x10 : ℕ → Bool → Sketch → Sketch
set_frequency_hz_x10 freq_x10 power_up s =
    let ftw : ℕ = frequency_ftw s.dds freq_x10 in
    perform (set_ftw ftw power_up) (record s { dds = record s.dds { current_ftw = ftw } })

-- `dds.setFrequencyHz`.
unfoldable pub set_frequency_hz : ℕ → Bool → Sketch → Sketch
unfolding set_frequency_hz_x10
set_frequency_hz freq power_up s = set_frequency_hz_x10 (freq * 10 % 2 ^ 32) power_up s

-- `setDDSlevelPWM`.
unfoldable pub set_dds_level_pwm : Sketch → Sketch
set_dds_level_pwm s =
    let level : ℕ = abs (if s.power.ext_pa_on then s.power.ext_pa_level else s.power.tx_level) in
    perform
      (analog_write tx_level_pin (
        if level == 0
        then pos 255
        else if ltb level 100
        then pos (80 - level * 80 / 100)
        else pos 0))
      s

-- `SendTunekHz(true)`.
unfoldable pub send_tune_khz : Sketch → Sketch
send_tune_khz s =
    let this_khz : ℤ = to_signed 4 ((s.cur_freq + 500) % 2 ^ 32 / 1000 * 1000) in
    record s {
      last_khz = this_khz;
      effects = s.effects ++ println (codes "{f" ++ signed_to_string this_khz ++ codes "}") ∷ [];
    }

abbrev pub ft8_tones : Tones
ft8_tones = record {
  symbol_count = pos ft8_symbol_count;
  tone_duration = 160;
  tone_spacing_hz_x100 = 625;
  tone_spacing_ftw_incr_x100 = 14913;
  g_tran_steps = 256;
  g_tran_micros_per_step = 64;
  g_tran_interp_factor = 8;
}

abbrev pub ft4_tones : Tones
ft4_tones = record {
  symbol_count = pos ft4_symbol_count;
  tone_duration = 48;
  tone_spacing_hz_x100 = 2083;
  tone_spacing_ftw_incr_x100 = 49710;
  g_tran_steps = 96;
  g_tran_micros_per_step = 64;
  g_tran_interp_factor = 3;
}

-- `setDigDefaults`: another mode changes nothing.
unfoldable pub set_dig_defaults : Sketch → Sketch
set_dig_defaults s =
    if eq_ℤ s.digital.tx_mode mode_ft8
    then record s { tones = ft8_tones }
    else if eq_ℤ s.digital.tx_mode mode_ft4
    then record s { tones = ft4_tones }
    else if eq_ℤ s.digital.tx_mode mode_rtty
    then record s { tones = record s.tones { symbol_count = negsuc 0 } }
    else s

-- One entry of `tx_buffer`: a character that is no digit leaves the zero there.
unfoldable pub tone_of : ℕ → ℕ
tone_of c = if is_digit c then c - b'0' else 0

-- The loop of `set_digital_tx_buffer` over the symbols; `charAt` behind the end gives a NUL.
unfoldable pub tones_of : ℕ → Bytes → List ℕ
unfolding tone_of
tones_of zero s = []
tones_of (suc n) [] = 0 ∷ tones_of n []
tones_of (suc n) (c ∷ s) = tone_of c ∷ tones_of n s

unfoldable pub sum : List ℕ → ℕ
sum [] = 0
sum (n ∷ l) = n + sum l

-- `set_digital_tx_buffer`.
unfoldable pub set_digital_tx_buffer : Sketch → Sketch
unfolding tones_of sum
set_digital_tx_buffer s =
    let symbols : Bytes =
      if eq_ℤ (pos (length s.digital.ftx_tx_msg)) s.tones.symbol_count
      then s.digital.ftx_tx_msg
      else ft8_tx_msg_err in
    let tones : List ℕ = tones_of (pos_part s.tones.symbol_count) symbols in
    if eq_ℤ s.digital.tx_mode mode_rtty then s else record s {
      digital = record s.digital {
        tx_buffer = tones ++ replicate (106 - length tones) 0;
        tune_chk = sum tones;
      };
    }

unfoldable pub power_down : Sketch → Sketch
unfolding set_frequency_hz
power_down s =
    let t : Sketch = set_frequency_hz s.cur_freq false s in
    record t { power = record t.power { tx_power_on = false } }

unfoldable pub power_up : Sketch → Sketch
unfolding set_frequency_hz send_tune_khz set_dds_level_pwm
power_up s =
    let t : Sketch = set_frequency_hz s.cur_freq false s in
    set_dds_level_pwm (send_tune_khz (record t { power = record t.power { tx_power_on = true } }))

-- The commands of a letter and an argument, from `{L` to `{Z`.
unfoldable pub set_tx_level : Bytes → Sketch → Sketch
unfolding set_dds_level_pwm
set_tx_level a s = set_dds_level_pwm (record s {
  power = record s.power { tx_level = atoi a; local_pa_active = not (ltb_ℤ (atoi a) (pos 0)) };
})

unfoldable pub set_ext_pa_level : Bytes → Sketch → Sketch
unfolding set_dds_level_pwm
set_ext_pa_level a s =
    set_dds_level_pwm (record s { power = record s.power { ext_pa_level = atoi a } })

unfoldable pub set_ext_pa_on : Bytes → Sketch → Sketch
unfolding set_dds_level_pwm
set_ext_pa_on a s =
    set_dds_level_pwm (record s { power = record s.power { ext_pa_on = str_eq a (codes "1") } })

unfoldable pub set_calibration : Bytes → Sketch → Sketch
unfolding set_frequency_hz
set_calibration a s =
    let down : Sketch = set_frequency_hz s.cur_freq false (record s { calibration = atoi a }) in
    set_frequency_hz s.cur_freq s.power.tx_power_on
      (record down { dds = set_clock (atoi a) down.dds })

-- `CurFreq = atol(...)`, an unsigned number of 32 bits.
unfoldable pub set_cur_freq : Bytes → Sketch → Sketch
unfolding set_frequency_hz send_tune_khz
set_cur_freq a s =
    let t : Sketch = send_tune_khz (record s { cur_freq = unsigned (atol a) }) in
    set_frequency_hz t.cur_freq false t
  where
    unsigned : ℤ → ℕ
    unsigned (pos n) = n
    unsigned (negsuc n) = 2 ^ 32 - 1 - n

unfoldable pub set_tx_mode : Bytes → Sketch → Sketch
unfolding set_dig_defaults
set_tx_mode a s =
    if eq_ℤ (atoi a) s.digital.tx_mode
    then s
    else set_dig_defaults (record s { digital = record s.digital { tx_mode = atoi a } })

unfoldable pub set_millis_to_end : Bytes → Sketch → Sketch
set_millis_to_end a s = record s {
  digital = record s.digital {
    ftx_millis_to_end = atoi a;
    digi_tx_on = if is_zero (atoi a) then false else s.digital.digi_tx_on;
  };
}

unfoldable pub set_digi_tx_on : Bytes → Sketch → Sketch
set_digi_tx_on a s = record s {
  digital = record s.digital { digi_tx_on = not (is_zero (atoi a)) };
  queue = if is_zero (atoi a) then clear_queue s.queue else s.queue;
}

-- The symbols of a message, or in RTTY its text.
unfoldable pub take_message : Bytes → Sketch → Sketch
take_message msg s =
    if eq_ℤ s.digital.tx_mode mode_rtty
    then record s { queue = (enqueue_message msg s.queue).0 }
    else if length msg == ft4_symbol_count || length msg == ft8_symbol_count
    then if str_eq msg s.digital.ftx_tx_msg
      then s
      else record s { digital = record s.digital { ftx_tx_msg = msg; ftx_tx_msg_changed = true } }
    else s
