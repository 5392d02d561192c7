-- ===== src/Transmitter/Serial.antt =====
-- TXlink4_Nano/TXlink4_Nano.ino: `ProcessSerialIn`, character by character.
pub mod Framing
pub mod Sound
pub mod Digital
use sdr_plugin_txlink_wsjt_x.Base.{
  ℕ, ◌||◌, List, [], ◌∷◌, ◌++◌, Bool, true, false, Bytes, ◌==◌, ltb, length, str_eq, codes,
  if◌then◌else◌,
}
use sdr_plugin_txlink_wsjt_x.Transmitter.{Sketch, perform, print}
use sdr_plugin_txlink_wsjt_x.Transmitter.Numbers.{atoi, scale}
use sdr_plugin_txlink_wsjt_x.Transmitter.Commands.{
  max_command, power_down, power_up, set_tx_level, set_ext_pa_level, set_ext_pa_on, set_calibration,
  set_cur_freq, set_tx_mode, set_millis_to_end, set_digi_tx_on, take_message, set_digital_tx_buffer,
}

-- The commands that the antenna tuner gives and gets.
unfoldable pub is_atu : Bytes → Bool
is_atu cmd = is_one atu
  where
    atu : List Bytes
    atu =
        codes "+l"
        ∷ codes "-l"
        ∷ codes "+c"
        ∷ codes "-c"
        ∷ codes "i"
        ∷ codes "o"
        ∷ codes "s"
        ∷ codes "f"
        ∷ codes "?"
        ∷ codes "b"
        ∷ []

    is_one : List Bytes → Bool
    is_one [] = false
    is_one (t ∷ l) = str_eq cmd t || is_one l

unfoldable pub echo : Bytes → Sketch → Sketch
echo cmd s = perform (print (codes "}")) (perform (print cmd) (perform (print (codes "{")) s))

unfoldable pub set_hold_time : Bytes → Sketch → Sketch
set_hold_time a s = record s { keying = record s.keying { tx_hold_time = atoi a } }

unfoldable pub set_fan_hold_time : Bytes → Sketch → Sketch
set_fan_hold_time a s = record s { fan = record s.fan { hold_time = scale 60_000 (atoi a) } }

unfoldable pub set_fan_low_pwm : Bytes → Sketch → Sketch
set_fan_low_pwm a s = record s { fan = record s.fan { low_pwm = atoi a } }

unfoldable pub set_tx_max_temp : Bytes → Sketch → Sketch
set_tx_max_temp a s = record s {
  temperature = record s.temperature { tx_max_temp = scale 1000 (atoi a) };
}

unfoldable pub set_ft8_tx_delay : Bytes → Sketch → Sketch
set_ft8_tx_delay a s = record s { digital = record s.digital { ft8_tx_delay = atoi a } }

unfoldable pub set_tx_df : Bytes → Sketch → Sketch
set_tx_df a s = record s { digital = record s.digital { ftx_tx_df = atoi a } }

-- The commands from `{M` on, of the digital modes and the antenna tuner.
unfoldable pub with_digital : ℕ → Bytes → Sketch → Sketch
unfolding set_tx_mode set_ft8_tx_delay set_tx_df set_millis_to_end set_digi_tx_on take_message
    set_digital_tx_buffer is_atu echo
with_digital c a s =
    if c == b'M'
    then set_tx_mode a s
    else if c == b'V'
    then set_ft8_tx_delay a s
    else if c == b'W'
    then set_millis_to_end a s
    else if c == b'X'
    then set_digi_tx_on a s
    else if c == b'Y'
    then set_tx_df a s
    else if c == b'Z'
    then set_digital_tx_buffer (take_message a s)
    else if is_atu (c ∷ a)
    then echo (c ∷ a) s
    else s

-- A command that starts with the letter `c` and goes on with `a`.
unfoldable pub with_argument : ℕ → Bytes → Sketch → Sketch
unfolding set_tx_level set_ext_pa_level set_ext_pa_on set_calibration set_cur_freq set_hold_time
    set_fan_hold_time set_fan_low_pwm set_tx_max_temp with_digital
with_argument c a s =
    if c == b'L'
    then set_tx_level a s
    else if c == b'P'
    then set_ext_pa_level a s
    else if c == b'Q'
    then set_ext_pa_on a s
    else if c == b'C'
    then set_calibration a s
    else if c == b'H'
    then set_hold_time a s
    else if c == b'B'
    then set_fan_hold_time a s
    else if c == b'R'
    then set_fan_low_pwm a s
    else if c == b'T'
    then set_tx_max_temp a s
    else if c == b'F'
    then set_cur_freq a s
    else with_digital c a s

-- What `}` does with the command before it.
unfoldable pub run_command : Bytes → Sketch → Sketch
unfolding power_down power_up with_argument
run_command [] s = s
run_command (c ∷ a) s =
    if str_eq (c ∷ a) (codes "D")
    then power_down s
    else if str_eq (c ∷ a) (codes "U")
    then power_up s
    else with_argument c a s

-- One character; a NUL ends the text where it already ends.
unfoldable pub take_char : ℕ → Sketch → Sketch
unfolding run_command
take_char c s =
    if c == b'{'
    then record s { chr_command = [] }
    else if c == b'}'
    then record (run_command s.chr_command s) { chr_command = [] }
    else if c == 0
    then s
    else if ltb (length s.chr_command) max_command
    then record s { chr_command = s.chr_command ++ c ∷ [] }
    else s

-- `ProcessSerialIn` on the characters that are there.
unfoldable pub process_serial_in : Bytes → Sketch → Sketch
unfolding take_char
process_serial_in [] s = s
process_serial_in (c ∷ l) s = process_serial_in l (take_char c s)
