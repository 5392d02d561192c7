-- ===== src/Form/Examples.antt =====
-- The form on concrete events.
use sdr_plugin_txlink_wsjt_x.Base.{
  ◌≡◌, refl, inl, [], ◌∷◌, ◌++◌, true, false, Bytes, pos, codes, str_eq, length-replicate, ◌||◌,
  to_string, digits_onto,
}
use sdr_plugin_txlink_wsjt_x.Settings.{split_ft8}
use sdr_plugin_txlink_wsjt_x.Annotator.{no_annotations}
use sdr_plugin_txlink_wsjt_x.Udp.{Globals}
use sdr_plugin_txlink_wsjt_x.Form.{Device, demodulator_usb, Form, signed_to_string, command}
use sdr_plugin_txlink_wsjt_x.Form.Calls.{no_calls}
use sdr_plugin_txlink_wsjt_x.Form.Frequency.{send_tx_freq}
use sdr_plugin_txlink_wsjt_x.Form.Once.{Sent, send_tx_freq-Sent}
use sdr_plugin_txlink_wsjt_x.Form.Ring.{IsRing}
use sdr_plugin_txlink_wsjt_x.Form.UdpEvent.{millis_to_end, Desk, serve_arduino, process_udp_event}
use sdr_plugin_txlink_wsjt_x.Form.Handshake.{
  SameGlobals, left_behind, process_udp_event-left_behind,
}
use sdr_plugin_txlink_wsjt_x.Form.Keying.{commands_at, serve_arduino-commands_at}

abbrev device : Device
device = record {
  write_ok = λ written text. true;
  stays_open = λ written text. true;
  reopens = true;
}

abbrev globals : Globals
globals = record {
  udp_exit_request = false;
  udp_event = true;
  udp_halt_tx_event = false;
  tx_flg = true;
  tx_df = pos 1200;
  tx_mode_str = codes "FT8";
  last_tx_msg = codes "CQ K1ABC FN42";
  tx_mode_change = false;
  dx_call = codes "G4AHN";
  dx_grid = [];
  new_dx_call = codes "G4AHN";
  str_report = [];
  rx_df = 0;
  str_decode_msg = codes "CQ K1ABC FN42";
  cur_frequency = 14074000;
  new_frequency = 0;
  tx_symbols = codes "0123";
}

abbrev form : Form
form = record {
  current_tx_freq = pos 14074000;
  current_rx_freq = pos 14074000;
  current_wsjtx_freq = pos 14074000;
  last_tx_freq = pos 14074000;
  track_freq = false;
  split_mode = split_ft8;
  digi_tx_mode_str = codes "FT8";
  first_time = false;
  serial = record { connected = true; written = codes "{M8}" ∷ [] };
  controller = record {
    vfo0 = pos 14074000;
    vfo1 = pos 14075200;
    demodulator = demodulator_usb;
    filter_bandwidth = 3000;
  };
  annotations = no_annotations;
  rtty_msg_out_q = record { queue = [] };
  saved_split_mode = [];
  globals = globals;
}

abbrev desk : Desk
desk = record { form = form; calls = no_calls; opened = [] }

process_udp_event-left_behind_example :
    SameGlobals (process_udp_event device 12000 desk).form.globals (left_behind form)
process_udp_event-left_behind_example = process_udp_event-left_behind device 12000 desk refl

is_digital_ft8 : (str_eq (codes "FT8") (codes "FT4") || str_eq (codes "FT8") (codes "FT8")) ≡ true
unfolding str_eq
is_digital_ft8 = refl

serve_arduino-commands_at_example :
    (serve_arduino device 12000 form).serial.written
    ≡ (codes "{M8}" ∷ []) ++ commands_at 12000 globals
serve_arduino-commands_at_example =
    serve_arduino-commands_at device 12000 form (refl, refl) refl is_digital_ft8 is_digital_ft8

-- 59999 - 12000 = 47999 ms are left in the minute, 2999 in the slot, 2829 without the margin.
written_commands :
    commands_at 12000 globals
    ≡ codes "{M8}" ∷ codes "{Y1200}" ∷ codes "{Z0123}" ∷ codes "{W2829}" ∷ codes "{X1}" ∷ []
unfolding str_eq command signed_to_string to_string digits_onto millis_to_end
written_commands = refl

no_calls-IsRing : IsRing no_calls
no_calls-IsRing = (length-replicate {A = Bytes} 10 [], inl refl)

-- The dial is on another frequency than the one that was sent last.
abbrev dialled : Form
dialled = record form { current_tx_freq = pos 7074000 }

send_tx_freq-Sent_example :
    Sent device dialled (send_tx_freq device dialled)
    × (send_tx_freq device (send_tx_freq device dialled) ≡ send_tx_freq device dialled)
send_tx_freq-Sent_example = send_tx_freq-Sent device dialled
