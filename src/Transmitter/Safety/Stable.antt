-- ===== src/Transmitter/Safety/Stable.antt =====
-- TXlink4_Nano/TXlink4_Nano.ino: what the measurements leave alone. They write to the pins, the line
-- and the chip, count, and change the fan and the temperature; the lockout takes the power and the
-- digital message. A predicate that all this keeps is kept by each of them.
use sdr_plugin_txlink_wsjt_x.Base.{
  ℕ, ◌+◌, List, true, false, not, ◌&&◌, Bytes, pos, leb, ltb_ℤ, codes, if◌then◌else◌,
}
use sdr_plugin_txlink_wsjt_x.Transmitter.{Sketch, Fan, Temperature, Effect}
use sdr_plugin_txlink_wsjt_x.Transmitter.Chip.{Dds}
use sdr_plugin_txlink_wsjt_x.Transmitter.Commands.{set_frequency_hz, set_frequency_hz_x10}
use sdr_plugin_txlink_wsjt_x.Transmitter.Serial.Sound.{either}
use sdr_plugin_txlink_wsjt_x.Transmitter.Safety.{
  Reading, elapsed, as_unsigned, is_talking, is_unsafe, is_hot, serial_print, serial_println,
  drive_fan, lock_out, release, check_fan_state, report, send_swr, swr_measure, take_temperature,
  key_level, fan_high_temp, avg_count,
}

module _ (P : Sketch → Type 0)
    (writes : (s : Sketch) (d : Dds) (f : Fan) (t : Temperature) (n : ℕ) (l : List Effect)
      → P s
      → P (record s { dds = d; fan = f; temperature = t; avg_counter = n; effects = l }))
    (locks : (s : Sketch)
      → P s
      → P (record s {
        power = record s.power { tx_power_on = false };
        digital = record s.digital { ftx_millis_to_end = pos 0; digi_tx_on = false };
      })) where
  tells : (s : Sketch) (l : List Effect) → P s → P (record s { effects = l })
  tells s l c = writes s s.dds s.fan s.temperature s.avg_counter l c

  serial_print-kept : (x : Bytes) (s : Sketch) → P s → P (serial_print x s)
  unfolding serial_print
  serial_print-kept x s c = either P (is_talking s) (tells s _ c) c

  pub serial_println-kept : (x : Bytes) (s : Sketch) → P s → P (serial_println x s)
  unfolding serial_println
  serial_println-kept x s c = either P (is_talking s) (tells s _ c) c

  drive_fan-kept : (now : ℕ) (s : Sketch) → P s → P (drive_fan now s)
  unfolding drive_fan
  drive_fan-kept now s c = either P s.keying.key_down_active turned (
      either P
        (ltb_ℤ (pos 0) s.fan.pwm_cur
          && leb (as_unsigned s.fan.hold_time) (elapsed now s.fan.hold_start_millis))
        turned
        (either P (not (ltb_ℤ s.fan.pwm_cur (pos 255)) && not (is_hot s)) turned
          (either P (not (ltb_ℤ s.fan.low_pwm s.fan.pwm_cur) && is_hot s) turned c)))
    where
      turned : {f : Fan} {l : List Effect} → P (record s { fan = f; effects = l })
      turned {f} {l} = writes s s.dds f s.temperature s.avg_counter l c

  lock_out-kept : (s : Sketch) → P s → P (lock_out s)
  unfolding lock_out set_frequency_hz set_frequency_hz_x10
  lock_out-kept s c =
      let off : Sketch = set_frequency_hz s.cur_freq false s in
      let down : P off = writes s off.dds s.fan s.temperature s.avg_counter off.effects c in
      let t : Sketch = serial_println (codes "{D}{N}") off in
      let told : P t = serial_println-kept (codes "{D}{N}") off down in
      let locked : Temperature = record t.temperature { tx_temp_lockout = true } in
      locks (record t { temperature = locked })
        (writes t t.dds t.fan locked t.avg_counter t.effects told)

  release-kept : (s : Sketch) → P s → P (release s)
  unfolding release
  release-kept s c =
      either P (ltb_ℤ s.temperature.temp_deg fan_high_temp)
        (writes s s.dds s.fan (record s.temperature { tx_temp_lockout = false }) s.avg_counter
          s.effects c)
        c

  pub check_fan_state-kept :
      (now : ℕ) (r : Reading) (s : Sketch) → P s → P (check_fan_state now r s)
  unfolding check_fan_state
  check_fan_state-kept now r s c =
      let d : Sketch = drive_fan now s in
      let driven : P d = drive_fan-kept now s c in
      release-kept (if is_unsafe r d then lock_out d else d)
        (either P (is_unsafe r d) (lock_out-kept d driven) driven)

  pub report-kept : (r : Reading) (s : Sketch) → P s → P (report r s)
  unfolding report
  report-kept r s c =
      let two : Sketch = serial_print r.ref_text (serial_print r.fwd_text s) in
      let t : Sketch = serial_print r.swr_text two in
      let told : P t = serial_print-kept r.swr_text two (
        serial_print-kept r.ref_text (serial_print r.fwd_text s)
          (serial_print-kept r.fwd_text s c)) in
      let warm : Temperature =
        take_temperature (not (key_level true t.effects)) r.temp t.temperature in
      serial_println-kept r.temp_text (record t { temperature = warm })
        (writes t t.dds t.fan warm t.avg_counter t.effects told)

  pub swr_measure-kept : (now : ℕ) (r : Reading) (s : Sketch) → P s → P (swr_measure now r s)
  unfolding swr_measure send_swr
  swr_measure-kept now r s c =
      let counted : Sketch = record s { avg_counter = s.avg_counter + 1 } in
      let more : P counted = writes s s.dds s.fan s.temperature (s.avg_counter + 1) s.effects c in
      let t : Sketch = check_fan_state now r (report r counted) in
      let checked : P t =
        check_fan_state-kept now r (report r counted) (report-kept r counted more) in
      either P (leb avg_count (s.avg_counter + 1))
        (writes t t.dds t.fan t.temperature 0 t.effects checked) more
