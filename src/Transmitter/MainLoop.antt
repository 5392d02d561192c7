-- ===== src/Transmitter/MainLoop.antt =====
-- TXlink4_Nano/TXlink4_Nano.ino: one pass of `loop`, with what comes from outside during it.
pub mod Background
pub mod Release
pub mod Wrap
use sdr_plugin_txlink_wsjt_x.Base.{
  ℕ, suc, ◌+◌, ◌-◌, ◌*◌, ◌/◌, ◌%◌, ◌^◌, List, [], ◌∷◌, ◌++◌, Bool, true, false, not, ◌&&◌, ◌||◌,
  Option, none, some, Bytes, ℤ, pos, negsuc, ltb_ℤ, leb, ltb, ◌==◌, codes, to_string, if◌then◌else◌,
}
use sdr_plugin_txlink_wsjt_x.Form.Frequency.{eq_ℤ}
use sdr_plugin_txlink_wsjt_x.Transmitter.{
  Sketch, Effect, perform, digital_write, analog_write, println, key_out, tx_out, ext_pa_out,
  fan_pin,
}
use sdr_plugin_txlink_wsjt_x.Transmitter.Commands.{set_frequency_hz_x10, mode_rtty}
use sdr_plugin_txlink_wsjt_x.Transmitter.Start.{is_ft4}
use sdr_plugin_txlink_wsjt_x.Transmitter.Rtty.{Air, Service, ◌>>=◌, transmit_rtty_string}
use sdr_plugin_txlink_wsjt_x.Transmitter.Rtty.Ends.{pending}
use sdr_plugin_txlink_wsjt_x.Transmitter.Safety.{
  elapsed, as_unsigned, serial_print, serial_println, fan_high_temp, is_hot,
}
use sdr_plugin_txlink_wsjt_x.Transmitter.Message.{
  Moment, Progress, waiting, ended, background, on_moments, begin_message, tx_freq_x10,
}

-- The key, the time, the rounds of the delay and of a message, what arrives during the bits of
-- RTTY, and the background work at the end. `literal` is the character of `getBaudotCode(" ")`.
pub record Pass : Type 0 where
  pub pressed : Bool
  pub now : ℕ
  pub delay : List Moment
  pub message_start : ℕ
  pub message : List Moment
  pub arrivals : List (List Service)
  pub literal : ℕ
  pub after : Moment

-- `StartFreq * 10`.
abbrev pub start_freq_x10 : Sketch → ℕ
start_freq_x10 s = if s.digital.digi_tx_on then tx_freq_x10 s else s.cur_freq * 10 % 2 ^ 32

-- `TxDelay`.
abbrev pub tx_delay : Sketch → ℤ
tx_delay s = if is_ft4 s.digital then half s.digital.ft8_tx_delay else s.digital.ft8_tx_delay
  where
    half : ℤ → ℤ
    half (pos n) = pos (n / 2)
    half (negsuc n) = if n == 0 then pos 0 else negsuc (suc n / 2 - 1)

-- The loop of the delay.
unfoldable pub wait_delay : ℕ → ℕ → List Moment → Sketch → Sketch
wait_delay start limit [] s = s
wait_delay start limit (m ∷ l) s =
    let rest = wait_delay start limit l (background m s) in
    if ltb (elapsed m.now start) limit then rest else s

-- The external power amplifier and its fan.
unfoldable pub ext_pa_up : ℕ → Sketch → Sketch
ext_pa_up now s =
    let low : ℤ =
      if ltb_ℤ s.fan.low_pwm (pos 0) || ltb_ℤ (pos 255) s.fan.low_pwm
      then pos 175
      else s.fan.low_pwm in
    let pwm : ℤ = if is_hot s then pos 255 else low in
    record s {
      fan = record s.fan { pwm_cur = pwm; hold_start_millis = now };
      effects = s.effects ++ digital_write ext_pa_out true ∷ analog_write fan_pin pwm ∷ [];
    }

-- The relay and the power amplifiers.
unfoldable pub amplifiers_up : ℕ → Sketch → Sketch
unfolding ext_pa_up
amplifiers_up now s =
    let t : Sketch = perform (digital_write tx_out true) s in
    if s.power.local_pa_active then if s.power.ext_pa_on then ext_pa_up now t else t else s

-- From receiving to transmitting.
unfoldable pub key_down : Pass → Sketch → Sketch
unfolding amplifiers_up wait_delay
key_down p s =
    let text : Bytes = codes "{f" ++ to_string s.cur_freq ++ codes "}" in
    let told : Sketch =
      serial_println text (serial_print text (set_frequency_hz_x10 (start_freq_x10 s) true s)) in
    let up : Sketch = serial_println (codes "{M}") (
      amplifiers_up p.now (record told {
        keying = record told.keying { key_down_active = true; key_down_millis = p.now };
      })) in
    let waited : Sketch =
      if up.digital.digi_tx_on
      then wait_delay ((p.now + 5) % 2 ^ 32) (as_unsigned (tx_delay up)) p.delay up
      else up in
    record waited { avg_counter = 0 }

abbrev pub finished : Progress → Option Sketch
finished (ended s) = some s
finished (waiting g s) = none

-- `DigitalTXmsg`; `none` if the moments end before the message.
unfoldable pub digital_tx_msg : Pass → Sketch → Option Sketch
digital_tx_msg p s =
    let air : Air = record {
      sketch = s;
      current_shift_ltrs = true;
      keyed = [];
      arrivals = p.arrivals;
    } in
    if eq_ℤ s.digital.tx_mode mode_rtty
    then transmit_rtty_string p.literal (pending air + 1) air >>= (λ b. some b.sketch)
    else finished (on_moments p.message (begin_message p.message_start s))

-- The half of `loop` that transmits.
unfoldable pub transmit : Pass → Sketch → Option Sketch
unfolding key_down digital_tx_msg
transmit p s =
    let keyed : Sketch =
      perform (digital_write key_out false)
        (if s.keying.key_down_active then s else key_down p s) in
    do
      t ← if keyed.digital.digi_tx_on then digital_tx_msg p keyed else some keyed
      some (record t { keying = record t.keying { last_key_up_millis = 0 } })

-- From transmitting to receiving.
unfoldable pub key_released : ℕ → Sketch → Sketch
key_released now s =
    let told : Sketch =
      serial_println (codes "{N}")
        (record s { keying = record s.keying { key_down_active = false } }) in
    let off : Sketch =
      set_frequency_hz_x10 (start_freq_x10 s) false
        (perform (digital_write tx_out false) (perform (digital_write ext_pa_out false) told)) in
    record off {
      keying = record off.keying { last_key_up_millis = 0 };
      fan = record off.fan { hold_start_millis = now };
    }

-- `LastKeyUpMillis > 0`, in a `long`.
abbrev pub is_counting : ℕ → Bool
is_counting since = ltb 0 since && ltb since (2 ^ 31)

-- The half of `loop` that receives.
unfoldable pub receive_mode : ℕ → Sketch → Sketch
unfolding key_released
receive_mode now s =
    let quiet : Sketch = perform (digital_write key_out true) s in
    if is_counting s.keying.last_key_up_millis
    then if leb (as_unsigned s.keying.tx_hold_time) (elapsed now s.keying.last_key_up_millis)
      then key_released now quiet
      else quiet
    else if s.keying.key_down_active
    then record quiet { keying = record quiet.keying { last_key_up_millis = now } }
    else quiet

-- `loop`.
unfoldable pub loop : Pass → Sketch → Option Sketch
unfolding transmit receive_mode
loop p s = do
  t ←
      if (p.pressed || s.digital.digi_tx_on) && s.power.tx_power_on
      then transmit p s
      else some (receive_mode p.now s)
  some (background p.after t)
