-- ===== src/Panel.antt =====
-- SDRunoPlugin_TXLink/SDRunoPlugin_TXLinkForm.cpp: what the form's timer does besides the events
-- of WSJT-X: the messages of the other threads (ProcessMessageQueue), the bytes of the Arduino
-- (ProcessIncomingSerial) and the commands with which the form sets the Arduino up.
pub mod Queued
pub mod Frames
pub mod Init
pub mod Answer
pub mod Timer
pub mod Ticks
pub mod Examples
use sdr_plugin_txlink_wsjt_x.Base.{
  ℕ, ◌+◌, List, [], ◌∷◌, ◌++◌, Option, none, some, Bool, true, false, not, ◌&&◌, Bytes, ℤ, codes,
  str_eq, starts_with, drop, ◌==◌, if◌then◌else◌,
}
use sdr_plugin_txlink_wsjt_x.Queue.{MessageQueue, push}
use sdr_plugin_txlink_wsjt_x.Settings.{
  Parsed, value, invalid_argument, out_of_range, stoi, or_default, get_valid_fan_hold,
  get_valid_fan_low_pwm, get_valid_ft8_tx_delay, get_valid_temp_limit, save_split_mode,
}
use sdr_plugin_txlink_wsjt_x.Encode.{is_nil}
use sdr_plugin_txlink_wsjt_x.Form.{Device, Form, write, command}
use sdr_plugin_txlink_wsjt_x.Form.Frequency.{write_frequency, send_tx_freq, send_rx_freq}
use sdr_plugin_txlink_wsjt_x.Form.UdpEvent.{Desk}

-- The texts that SDRuno keeps under the keys of the plugin.
pub record Stored : Type 0 where
  pub freq_cal : Bytes
  pub fan_hold : Bytes
  pub fan_low_pwm : Bytes
  pub ft8_tx_delay : Bytes
  pub temp_limit : Bytes

pub record Panel : Type 0 where
  pub desk : Desk
  pub message_queue : MessageQueue Bytes
  pub stored : Stored
  pub tx_level : Bytes
  pub pa_level : Bytes
  pub audio_mute0 : Bool
  pub audio_mute1 : Bool
  pub vrx0_mute : Bool
  pub vrx1_mute : Bool
  pub swr_fwd : Bytes
  pub swr_ref : Bytes
  pub swr : Bytes
  pub tx_temp : Bytes
  pub standby_mode : Bool
  pub pa_checked : Bool

abbrev pub on_form : (Form → Form) → Panel → Panel
on_form h p = record p { desk = record (p.desk) { form = h p.desk.form } }

-- SendTXlevel, SendPAlevel, SendPAstate, SendFanHold, SendFanLowPWM, SendFT8txDelay and
-- SendTempLimit are this with their letters.
abbrev pub send_setting : Device → ℕ → Bytes → Form → Form
send_setting d letter text f = if f.serial.connected then write d (command letter text) f else f

abbrev pub send_tx_level : Device → Bytes → Form → Form
send_tx_level d = send_setting d b'L'

abbrev pub send_pa_level : Device → Bytes → Form → Form
send_pa_level d = send_setting d b'P'

abbrev pub send_pa_state : Device → Bool → Form → Form
send_pa_state d on = send_setting d b'Q' (if on then codes "1" else codes "0")

abbrev pub send_fan_hold : Device → Bytes → Form → Form
send_fan_hold d = send_setting d b'B'

abbrev pub send_fan_low_pwm : Device → Bytes → Form → Form
send_fan_low_pwm d = send_setting d b'R'

abbrev pub send_ft8_tx_delay : Device → Bytes → Form → Form
send_ft8_tx_delay d = send_setting d b'V'

abbrev pub send_temp_limit : Device → Bytes → Form → Form
send_temp_limit d = send_setting d b'T'

-- The timer writes a caption before all this, so `freqTb.caption() == ""` is false in SendRXfreq.
unfoldable pub send_freq_cal_to_tx : Device → Panel → Panel
unfolding send_rx_freq stoi
send_freq_cal_to_tx d p =
    let tmp = or_default (codes "0") p.stored.freq_cal in
    let kept = record p { stored = record (p.stored) { freq_cal = tmp } } in
    elim (stoi tmp) [
      | value v ↦ on_form (λ f. send_rx_freq d false (send_setting d b'C' tmp f)) kept
      | invalid_argument ↦ kept
      | out_of_range ↦ kept
    ]

-- The answer to "~TX" in its parts: the levels and the fan's settings.
unfoldable pub send_levels : Device → Panel → Panel
send_levels d q =
    let fan_hold = get_valid_fan_hold q.stored.fan_hold in
    let fan_low_pwm = get_valid_fan_low_pwm q.stored.fan_low_pwm in
    on_form
      (λ f. send_fan_low_pwm d fan_low_pwm (
        send_fan_hold d fan_hold
          (send_pa_state d false (send_pa_level d q.pa_level (send_tx_level d q.tx_level f)))))
      (record q { stored = record (q.stored) { fan_hold = fan_hold; fan_low_pwm = fan_low_pwm } })

-- The temperature limit and the mute; the Boolean says that an exception left the function.
unfoldable pub send_last_limit : Device → Panel → Panel × Bool
send_last_limit d p = elim (get_valid_temp_limit p.stored.temp_limit) [
  | none ↦ (p, true)
  | some limit ↦ (
    record (on_form (send_temp_limit d limit) p) {
      stored = record (p.stored) { temp_limit = limit };
      audio_mute1 = true;
    },
    false,
  )
]

-- The delay, and what follows it.
unfoldable pub send_limits : Device → Panel → Panel × Bool
unfolding send_last_limit
send_limits d q = elim (get_valid_ft8_tx_delay q.stored.ft8_tx_delay) [
  | none ↦ (q, true)
  | some delay ↦ send_last_limit d (record (on_form (send_ft8_tx_delay d delay) q) {
    stored = record (q.stored) { ft8_tx_delay = delay };
  })
]

-- What the Arduino is sent when it reports "~TX".
unfoldable pub init_tx : Device → Panel → Panel × Bool
unfolding write_frequency send_freq_cal_to_tx send_levels send_limits
init_tx d p = send_limits d (send_levels d (send_freq_cal_to_tx d (on_form (write_frequency d) p)))

abbrev pub mute_both : Panel → Panel
mute_both p = record p {
  vrx0_mute = p.audio_mute0;
  vrx1_mute = p.audio_mute1;
  audio_mute0 = true;
  audio_mute1 = true;
}

-- A complete message of the Arduino.
unfoldable pub on_message : Device → Bytes → Panel → Panel × Bool
unfolding init_tx
on_message d msg p =
    if is_nil msg
    then (p, false)
    else if str_eq msg (codes "~TX")
    then init_tx d p
    else if starts_with (codes "M") msg && not (str_eq p.desk.form.digi_tx_mode_str (codes "TTY"))
    then (mute_both p, false)
    else if starts_with (codes "N") msg
    then (record p { audio_mute0 = p.vrx0_mute; audio_mute1 = p.vrx1_mute }, false)
    else if starts_with (codes "F") msg
    then (record p { swr_fwd = drop 1 msg }, false)
    else if starts_with (codes "R") msg
    then (record p { swr_ref = drop 1 msg }, false)
    else if starts_with (codes "S") msg
    then (record p { swr = drop 1 msg }, false)
    else if starts_with (codes "T") msg
    then (record p { tx_temp = drop 1 msg }, false)
    else if starts_with (codes "D") msg
    then (record p { standby_mode = true }, false)
    else (p, false)

-- The loop over the available bytes: `none` is a read that fails, and `new_msg` the message so
-- far, a local variable that is empty at each call.
unfoldable pub read_serial : Device → List (Option ℕ) → Bytes → Panel → Panel × Bool
unfolding on_message
read_serial d [] new_msg p = (p, false)
read_serial d (none ∷ rs) new_msg p = read_serial d rs new_msg p
read_serial d (some c ∷ rs) new_msg p =
    let (q, thrown) = on_message d new_msg p in
    let begun = read_serial d rs [] p in
    let handled = read_serial d rs [] q in
    let more = read_serial d rs (new_msg ++ c ∷ []) p in
    if c == b'{' then begun else if c == b'}' then (if thrown then (q, true) else handled) else more

unfoldable pub process_incoming_serial : Device → List (Option ℕ) → Panel → Panel × Bool
unfolding read_serial
process_incoming_serial d reads p = read_serial d reads [] p

-- `rfind` gives an unsigned number, which is never below 0: the mode changes at every command.
unfoldable pub process_rtty_command : Bytes → Form → Form × Bytes
process_rtty_command text f = (record f { digi_tx_mode_str = codes "TTY" }, text)

-- `_SendSerialMsg`.
abbrev pub send_serial_msg : Device → Bytes → Form → Form
send_serial_msg d msg f = if f.serial.connected then write d msg f else f

-- A message that is for the Arduino.
unfoldable pub send_message : Device → Bytes → Form → Form
unfolding process_rtty_command
send_message d message f =
    if starts_with (codes "RTTY:") message
    then send_serial_msg d (process_rtty_command (drop 5 message) f).1
        (process_rtty_command (drop 5 message) f).0
    else send_serial_msg d message f

-- SaveIniData, as far as the state goes.
abbrev pub save_ini_data : Form → Form
save_ini_data f = record f { saved_split_mode = save_split_mode f.split_mode }

-- The loop over the queue. A special message ends it, with the rest still queued.
unfoldable pub take_messages : Device → List Bytes → Panel → Panel
unfolding send_rx_freq send_tx_freq save_split_mode send_message
take_messages d [] p = record p { message_queue = record { queue = [] } }
take_messages d (m ∷ ms) p =
    let left = record p { message_queue = record { queue = ms } } in
    let sent = take_messages d ms (on_form (send_message d m) left) in
    if str_eq m (codes "$SendRXfreq$")
    then on_form (send_rx_freq d false) left
    else if str_eq m (codes "$SendTXfreq$")
    then on_form (send_tx_freq d) left
    else if str_eq m (codes "$SaveIniData$")
    then on_form save_ini_data left
    else sent

unfoldable pub process_message_queue : Device → Panel → Panel
unfolding take_messages
process_message_queue d p = take_messages d p.message_queue.queue p

-- `SendSerialMsg`, by which the other threads post a message.
unfoldable pub post_message : Bytes → Panel → Panel
unfolding push
post_message msg p = record p { message_queue = push p.message_queue msg }
