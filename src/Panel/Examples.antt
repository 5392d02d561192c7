-- ===== src/Panel/Examples.antt =====
-- The timer of the form on concrete messages and bytes.
use sdr_plugin_txlink_wsjt_x.Base.{
  ◌≡◌, refl, inl, List, [], ◌∷◌, ◌++◌, map, some, true, false, Bytes, pos, codes, str_eq, arith,
}
use sdr_plugin_txlink_wsjt_x.Settings.{
  value, stoi, leading_digits, parse_positive, parse_sign, valid_below, split_none,
  get_valid_ft8_tx_delay, get_valid_temp_limit,
}
use sdr_plugin_txlink_wsjt_x.Annotator.{no_annotations}
use sdr_plugin_txlink_wsjt_x.Udp.{Globals}
use sdr_plugin_txlink_wsjt_x.Form.{Device, demodulator_usb, Form}
use sdr_plugin_txlink_wsjt_x.Form.Calls.{no_calls}
use sdr_plugin_txlink_wsjt_x.Panel.{Panel, init_tx, process_incoming_serial, process_message_queue}
use sdr_plugin_txlink_wsjt_x.Panel.Frames.{
  reads_of, frames, handle_all, process_incoming_serial-frames,
}
use sdr_plugin_txlink_wsjt_x.Panel.Queued.{
  StaysOpen, AllPlain, text_of, process_message_queue-written,
}
use sdr_plugin_txlink_wsjt_x.Panel.Init.{IsNoNumber, behind_levels}
use sdr_plugin_txlink_wsjt_x.Panel.Answer.{IsQuiet, init_commands, init_tx-init_commands}
use sdr_plugin_txlink_wsjt_x.Panel.Ticks.{running, ticks, on_timer_stuck}

abbrev device : Device
device = record {
  write_ok = λ written text. true;
  stays_open = λ written text. true;
  reopens = true;
}

device_StaysOpen : StaysOpen device
device_StaysOpen written text = refl

abbrev globals : Globals
globals = record {
  udp_exit_request = false;
  udp_event = false;
  udp_halt_tx_event = false;
  tx_flg = false;
  tx_df = pos 0;
  tx_mode_str = codes "FT8";
  last_tx_msg = [];
  tx_mode_change = false;
  dx_call = [];
  dx_grid = [];
  new_dx_call = [];
  str_report = [];
  rx_df = 0;
  str_decode_msg = [];
  cur_frequency = 0;
  new_frequency = 0;
  tx_symbols = [];
}

abbrev form : Form
form = record {
  current_tx_freq = pos 14074000;
  current_rx_freq = pos 14074000;
  current_wsjtx_freq = pos 14074000;
  last_tx_freq = pos 14074000;
  track_freq = false;
  split_mode = split_none;
  digi_tx_mode_str = codes "FT8";
  first_time = true;
  serial = record { connected = true; written = [] };
  controller = record {
    vfo0 = pos 14074000;
    vfo1 = pos 14074000;
    demodulator = demodulator_usb;
    filter_bandwidth = 3000;
  };
  annotations = no_annotations;
  rtty_msg_out_q = record { queue = [] };
  saved_split_mode = [];
  globals = globals;
}

-- A panel with a queue and a stored delay.
abbrev panel_with : List Bytes → Bytes → Panel
panel_with queue delay = record {
  desk = record { form = form; calls = no_calls; opened = [] };
  message_queue = record { queue = queue };
  stored = record {
    freq_cal = [];
    fan_hold = [];
    fan_low_pwm = codes "full";
    ft8_tx_delay = delay;
    temp_limit = codes "60";
  };
  tx_level = codes "50";
  pa_level = codes "80";
  audio_mute0 = false;
  audio_mute1 = true;
  vrx0_mute = false;
  vrx1_mute = true;
  swr_fwd = [];
  swr_ref = [];
  swr = [];
  tx_temp = [];
  standby_mode = false;
  pa_checked = false;
}

abbrev panel : Panel
panel = panel_with [] (codes "300")

process_incoming_serial-frames_example :
    process_incoming_serial device (reads_of (frames (codes "T41" ∷ codes "D" ∷ []))) panel
    ≡ handle_all device (codes "T41" ∷ codes "D" ∷ []) panel
process_incoming_serial-frames_example =
    process_incoming_serial-frames device (codes "T41" ∷ codes "D" ∷ []) panel
      ((refl, refl, (refl, refl, (refl, refl, tt))), ((refl, refl, tt), tt))

abbrev plain_queue : List Bytes
plain_queue = codes "{A1}" ∷ codes "RTTY:{M1}" ∷ []

abbrev queued : Panel
queued = panel_with plain_queue []

plain_AllPlain : AllPlain plain_queue
unfolding str_eq
plain_AllPlain = ((refl, refl, refl), ((refl, refl, refl), tt))

process_message_queue-written_example :
    ((process_message_queue device queued).desk.form.serial.written ≡ [] ++ map text_of plain_queue)
    × ((process_message_queue device queued).message_queue.queue ≡ [])
process_message_queue-written_example =
    process_message_queue-written device queued device_StaysOpen plain_AllPlain refl

abbrev mixed : Panel
mixed = panel_with (plain_queue ++ codes "$SaveIniData$" ∷ codes "{A2}" ∷ []) []

form_IsQuiet : IsQuiet form
form_IsQuiet = record { connected = refl; fixed = refl; settled = refl }

stoi_zero : stoi (codes "0") ≡ value (pos 0)
unfolding stoi parse_sign parse_positive leading_digits
stoi_zero = refl

delay_300 : get_valid_ft8_tx_delay (codes "300") ≡ some (codes "300")
unfolding valid_below stoi parse_sign parse_positive leading_digits
delay_300 = refl

limit_60 : get_valid_temp_limit (codes "60") ≡ some (codes "60")
unfolding valid_below stoi parse_sign parse_positive leading_digits
limit_60 = refl

init_tx-init_commands_example :
    ((init_tx device panel).0.desk.form.serial.written
      ≡ [] ++ init_commands device device_StaysOpen panel (codes "300") (codes "60"))
    × ((init_tx device panel).1 ≡ false)
init_tx-init_commands_example =
    init_tx-init_commands device device_StaysOpen panel (pos 0) (codes "300") (codes "60")
      form_IsQuiet stoi_zero delay_300 limit_60

abbrev bad : Panel
bad = panel_with [] (codes "fast")

fast_IsNoNumber : IsNoNumber (codes "fast")
unfolding stoi parse_sign parse_positive
fast_IsNoNumber = inl refl

on_timer_stuck_example :
    ticks device
      ((0, reads_of (frames (codes "~TX" ∷ []))) ∷ (50, reads_of (codes "{T41}")) ∷ [])
      (running bad)
    ≡ record (running (behind_levels device bad)) { busy = true }
on_timer_stuck_example =
    on_timer_stuck device 0 [] ((50, reads_of (codes "{T41}")) ∷ []) bad refl tt
      (λ e. absurd (ground (arith, e))) fast_IsNoNumber
