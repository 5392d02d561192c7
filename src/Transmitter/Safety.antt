-- ===== src/Transmitter/Safety.antt =====
-- TXlink4_Nano/TXlink4_Nano.ino: the measurements, the fan and the lockout of the transmitter.
-- What the averages of the analog inputs come to, and its texts, is a `Reading`.
pub mod Lockout
pub mod Stable
use sdr_plugin_txlink_wsjt_x.Base.{
  ℕ, suc, ◌+◌, ◌-◌, ◌*◌, ◌%◌, ◌^◌, List, [], ◌∷◌, ◌++◌, Bool, true, false, not, ◌&&◌, ◌||◌, Bytes,
  ℤ, pos, negsuc, ◌+ℤ◌, ◌-ℤ◌, ltb_ℤ, leb, ltb, codes, if◌then◌else◌,
}
use sdr_plugin_txlink_wsjt_x.Transmitter.{
  Sketch, Effect, Pin, Temperature, perform, print, println, digital_write, analog_write, set_ftw,
  key_out, fan_pin, tx_level_pin, tx_out, ext_pa_out,
}
use sdr_plugin_txlink_wsjt_x.Transmitter.Numbers.{is_zero}
use sdr_plugin_txlink_wsjt_x.Transmitter.Commands.{set_frequency_hz}

-- The reading of a full average: the root of the forward power, the SWR, the temperature by the
-- NTC, and the texts of the four messages.
pub record Reading : Type 0 where
  pub avg_fwd : ℕ
  pub swr : ℕ
  pub temp : ℤ
  pub fwd_text : Bytes
  pub ref_text : Bytes
  pub swr_text : Bytes
  pub temp_text : Bytes

abbrev pub avg_count : ℕ
avg_count = 650

abbrev pub fan_high_temp : ℤ
fan_high_temp = pos 38_000

abbrev pub swr_fwd_min : ℕ
swr_fwd_min = 1000

abbrev pub swr_max : ℕ
swr_max = 3000

-- millis() - `since`, in 32 bits.
abbrev pub elapsed : ℕ → ℕ → ℕ
elapsed now since = (now + 2 ^ 32 - since) % 2 ^ 32

-- A `long` that is compared with an `unsigned long`.
abbrev pub as_unsigned : ℤ → ℕ
as_unsigned (pos n) = n
as_unsigned (negsuc n) = 2 ^ 32 - 1 - n

abbrev pub is_talking : Sketch → Bool
is_talking s = s.power.tx_power_on || not (is_zero s.power.tx_level)

-- `Serial_print` and `Serial_println`.
unfoldable pub serial_print : Bytes → Sketch → Sketch
serial_print text s = if is_talking s then perform (print text) s else s

unfoldable pub serial_println : Bytes → Sketch → Sketch
serial_println text s = if is_talking s then perform (println text) s else s

-- The level of the key: what was written last, high at the start.
unfoldable pub key_level : Bool → List Effect → Bool
key_level level [] = level
key_level level (digital_write key_out b ∷ l) = key_level b l
key_level level (e ∷ l) = key_level level l

-- The temperature at the last reading, with the offset that a transmission starts with.
unfoldable pub take_temperature : Bool → ℤ → Temperature → Temperature
take_temperature in_tx temp t =
    let offset : ℤ =
      if in_tx
      then if not t.is_rx_temp && ltb_ℤ (negsuc 99_999) t.last_rx_temp
        then t.last_rx_temp -ℤ temp
        else t.temp_tx_offset
      else pos 0 in
    record t {
      temp_deg = temp +ℤ offset;
      is_rx_temp = not in_tx;
      temp_tx_offset = offset;
      last_rx_temp =
          if in_tx
          then if t.is_rx_temp
            then t.temp_deg
            else if ltb_ℤ (negsuc 99_999) t.last_rx_temp
            then negsuc 99_999
            else t.last_rx_temp
          else t.last_rx_temp;
    }

abbrev pub set_fan : ℤ → Sketch → Sketch
set_fan pwm s =
    perform (analog_write fan_pin pwm) (record s { fan = record s.fan { pwm_cur = pwm } })

abbrev pub is_hot : Sketch → Bool
is_hot s = ltb_ℤ fan_high_temp s.temperature.temp_deg

-- The first half of `CheckFanState`.
unfoldable pub drive_fan : ℕ → Sketch → Sketch
drive_fan now s =
    let low : ℤ =
      if ltb_ℤ s.fan.low_pwm (pos 0) || ltb_ℤ (pos 255) s.fan.low_pwm
      then pos 150
      else s.fan.low_pwm in
    if s.keying.key_down_active
    then set_fan (pos 255) s
    else if ltb_ℤ (pos 0) s.fan.pwm_cur
        && leb (as_unsigned s.fan.hold_time) (elapsed now s.fan.hold_start_millis)
    then set_fan (pos 0) s
    else if not (ltb_ℤ s.fan.pwm_cur (pos 255)) && not (is_hot s)
    then set_fan low (record s { fan = record s.fan { low_pwm = low } })
    else if not (ltb_ℤ s.fan.low_pwm s.fan.pwm_cur) && is_hot s
    then set_fan (pos 255) s
    else s

abbrev pub is_unsafe : Reading → Sketch → Bool
is_unsafe r s =
    not (ltb_ℤ s.temperature.temp_deg s.temperature.tx_max_temp)
    || leb swr_fwd_min r.avg_fwd && ltb swr_max r.swr

-- The lockout: the power is off, and a digital message is stopped.
unfoldable pub lock_out : Sketch → Sketch
unfolding set_frequency_hz serial_println
lock_out s =
    let t : Sketch = serial_println (codes "{D}{N}") (set_frequency_hz s.cur_freq false s) in
    record t {
      temperature = record t.temperature { tx_temp_lockout = true };
      power = record t.power { tx_power_on = false };
      digital = record t.digital { ftx_millis_to_end = pos 0; digi_tx_on = false };
    }

unfoldable pub release : Sketch → Sketch
release s =
    if ltb_ℤ s.temperature.temp_deg fan_high_temp
    then record s { temperature = record s.temperature { tx_temp_lockout = false } }
    else s

-- `CheckFanState`.
unfoldable pub check_fan_state : ℕ → Reading → Sketch → Sketch
unfolding drive_fan lock_out release
check_fan_state now r s =
    let driven : Sketch = drive_fan now s in
    release (if is_unsafe r driven then lock_out driven else driven)

-- The messages of `SendSWR`, and the temperature.
unfoldable pub report : Reading → Sketch → Sketch
unfolding serial_print serial_println take_temperature key_level
report r s =
    let told : Sketch =
      serial_print r.swr_text (serial_print r.ref_text (serial_print r.fwd_text s)) in
    let t : Temperature =
      take_temperature (not (key_level true told.effects)) r.temp told.temperature in
    serial_println r.temp_text (record told { temperature = t })

-- `SendSWR`.
unfoldable pub send_swr : ℕ → Reading → Sketch → Sketch
unfolding report check_fan_state
send_swr now r s = record (check_fan_state now r (report r s)) { avg_counter = 0 }

-- `SWRmeasure`.
unfoldable pub swr_measure : ℕ → Reading → Sketch → Sketch
unfolding send_swr
swr_measure now r s =
    let counted : Sketch = record s { avg_counter = s.avg_counter + 1 } in
    if leb avg_count counted.avg_counter then send_swr now r counted else counted
