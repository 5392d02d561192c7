-- ===== src/Form/UdpEvent.antt =====
-- SDRunoPlugin_TXLink/SDRunoPlugin_TXLinkForm.cpp: ProcessUDPEvent, which takes the events that
-- the UDP thread posts, and millisToEnd. The clock, as milliseconds in the minute, is an argument.
use sdr_plugin_txlink_wsjt_x.Base.{
  ℕ, ◌-◌, ◌%◌, List, [], ◌∷◌, ◌++◌, false, not, ◌&&◌, ◌||◌, Bytes, ℤ, pos, sub_ℕ, ltb, codes,
  str_eq, if◌then◌else◌,
}
use sdr_plugin_txlink_wsjt_x.Encode.{ft8, ft4, is_nil}
use sdr_plugin_txlink_wsjt_x.Udp.{Globals}
use sdr_plugin_txlink_wsjt_x.Form.{Device, Form, write, signed_to_string, command}
use sdr_plugin_txlink_wsjt_x.Form.Frequency.{is_ft8, setup_data_mode}
use sdr_plugin_txlink_wsjt_x.Form.Calls.{LastCalls, last_ten_calls}

-- Milliseconds to the end of the slot, less the margin of the mode.
unfoldable pub millis_to_end : Bytes → ℕ → ℤ
millis_to_end mode millis_in_minute =
    if str_eq mode ft4
    then sub_ℕ ((59999 - millis_in_minute) % 7500) 50
    else sub_ℕ ((59999 - millis_in_minute) % 15000) 170

abbrev pub time_to_end : ℕ → Globals → ℤ
time_to_end now g =
    if not (str_eq g.str_decode_msg (codes "TUNE"))
    then millis_to_end g.tx_mode_str now
    else pos 30000

abbrev pub stop_command : Bytes
stop_command = codes "{X0}"

abbrev pub start_command : Bytes
start_command = codes "{X1}"

abbrev pub mode_command : Globals → Bytes
mode_command g = if str_eq g.tx_mode_str ft4 then codes "{M4}" else codes "{M8}"

-- A new frequency of WSJT-X is taken and acknowledged by zero.
unfoldable pub take_frequency : Device → Form → Form
take_frequency d f =
    let taken = record f {
      current_wsjtx_freq = pos f.globals.new_frequency;
      globals = record (f.globals) { new_frequency = 0 };
    } in
    if ltb 0 f.globals.new_frequency then setup_data_mode d taken else f

-- The four commands that carry a transmission: mode, offset, tones and time.
unfoldable pub write_transmission : Device → ℕ → Form → Form
write_transmission d now f =
    let g = f.globals in
    write d (command b'W' (signed_to_string (time_to_end now g))) (
      write d (command b'Z' g.tx_symbols)
        (write d (command b'Y' (signed_to_string g.tx_df)) (write d (mode_command g) f)))

-- The label and the data mode of a transmission.
unfoldable pub enter_transmission : Device → Form → Form
enter_transmission d f = setup_data_mode d (record f { digi_tx_mode_str = f.globals.tx_mode_str })

-- `str` and the form behind the transmission block.
unfoldable pub prepare : Device → ℕ → Form → Form × Bytes
unfolding write_transmission enter_transmission
prepare d now f =
    if f.globals.tx_flg
    then (enter_transmission d (write_transmission d now f), start_command)
    else (f, stop_command)

unfoldable pub take_halt : Form × Bytes → Form × Bytes
take_halt x =
    if x.0.globals.udp_halt_tx_event
    then (
      record (x.0) { globals = record (x.0.globals) { udp_halt_tx_event = false } },
      codes "{X0}{W0}",
    )
    else x

-- The last command, in data mode alone.
unfoldable pub write_key : Device → Form × Bytes → Form
write_key d x =
    if is_ft8 x.0.split_mode && (str_eq x.0.digi_tx_mode_str ft4 || str_eq x.0.digi_tx_mode_str ft8)
    then write d x.1 x.0
    else x.0

unfoldable pub serve_arduino : Device → ℕ → Form → Form
unfolding take_frequency prepare take_halt write_key
serve_arduino d now f = write_key d (take_halt (prepare d now (take_frequency d f)))

pub record Desk : Type 0 where
  pub form : Form
  pub calls : LastCalls
  pub opened : List Bytes

-- The page of a new call is opened, and the event is taken.
unfoldable pub finish_event : Desk → Desk
unfolding last_ten_calls
finish_event k =
    let f = k.form in
    let call = f.globals.new_dx_call in
    let listed = last_ten_calls call k.calls in
    let looked = if not (is_nil call) then listed.0 else k.calls in
    let is_new = not (is_nil call) && not listed.1 in
    record {
      form = record f { globals = record (f.globals) { new_dx_call = []; udp_event = false } };
      calls = looked;
      opened =
          if is_new then k.opened ++ (codes "https://www.qrz.com/db/" ++ call) ∷ [] else k.opened;
    }

-- Before the data mode is set for the first time, events are dropped until the frequency changes.
unfoldable pub ignore_event : Desk → Desk
ignore_event k =
    let f = k.form in
    let g = f.globals in
    record k {
      form = record f {
        first_time = if ltb 0 g.new_frequency then false else f.first_time;
        globals = record g { new_frequency = 0; udp_event = false };
      };
    }

unfoldable pub process_udp_event : Device → ℕ → Desk → Desk
unfolding serve_arduino finish_event ignore_event
process_udp_event d now k =
    let f = k.form in
    let later = record f { first_time = false } in
    let served = if f.serial.connected then serve_arduino d now later else later in
    if not f.globals.udp_event
    then k
    else if f.first_time && not (is_ft8 f.split_mode)
    then ignore_event k
    else finish_event (record k { form = served })
