-- ===== src/Ui/Examples.antt =====
-- The events of SDRuno on a concrete panel.
use sdr_plugin_txlink_wsjt_x.Base.{
  ◌≡◌, refl, inl, inr, [], Bool, true, false, not, ◌&&◌, ℤ, pos, codes, ltb_ℤ, arith,
}
use sdr_plugin_txlink_wsjt_x.Settings.{SplitMode, split_none, split_tx_rx, split_ft8}
use sdr_plugin_txlink_wsjt_x.Annotator.{no_annotations}
use sdr_plugin_txlink_wsjt_x.Udp.{Globals}
use sdr_plugin_txlink_wsjt_x.Form.{demodulator_usb, Form}
use sdr_plugin_txlink_wsjt_x.Form.Frequency.{eq_ℤ}
use sdr_plugin_txlink_wsjt_x.Form.Calls.{no_calls}
use sdr_plugin_txlink_wsjt_x.Ui.{Ui, frequency_changed}
use sdr_plugin_txlink_wsjt_x.Ui.Split.{form_of, messages_of, HasMoved, frequency_changed-ft8}

abbrev globals : Globals
globals = record {
  udp_exit_request = false;
  udp_event = false;
  udp_halt_tx_event = false;
  tx_flg = false;
  tx_df = pos 0;
  tx_mode_str = codes "FT8";
  last_tx_msg = [];
  tx_mode_change = false;
  dx_call = [];
  dx_grid = [];
  new_dx_call = [];
  str_report = [];
  rx_df = 0;
  str_decode_msg = [];
  cur_frequency = 0;
  new_frequency = 0;
  tx_symbols = [];
}

abbrev form_in : SplitMode → ℤ → ℤ → Form
form_in mode f0 f1 = record {
  current_tx_freq = pos 14074000;
  current_rx_freq = pos 14074000;
  current_wsjtx_freq = pos 14074000;
  last_tx_freq = pos 14074000;
  track_freq = false;
  split_mode = mode;
  digi_tx_mode_str = codes "FT8";
  first_time = false;
  serial = record { connected = true; written = [] };
  controller = record {
    vfo0 = f0;
    vfo1 = f1;
    demodulator = demodulator_usb;
    filter_bandwidth = 3000;
  };
  annotations = no_annotations;
  rtty_msg_out_q = record { queue = [] };
  saved_split_mode = [];
  globals = globals;
}

abbrev ui_in : SplitMode → ℤ → ℤ → Ui
ui_in mode f0 f1 = record {
  last_f0 = 14074000;
  last_f1 = 14074000;
  panel = record {
    desk = record { form = form_in mode f0 f1; calls = no_calls; opened = [] };
    message_queue = record { queue = [] };
    stored = record {
      freq_cal = [];
      fan_hold = [];
      fan_low_pwm = [];
      ft8_tx_delay = [];
      temp_limit = [];
    };
    tx_level = codes "50";
    pa_level = codes "80";
    audio_mute0 = false;
    audio_mute1 = true;
    vrx0_mute = false;
    vrx1_mute = true;
    swr_fwd = [];
    swr_ref = [];
    swr = [];
    tx_temp = [];
    standby_mode = false;
    pa_checked = false;
  };
}

abbrev ft8_ui : Ui
ft8_ui = ui_in split_ft8 (pos 14074100) (pos 14074000)

ft8_moved : HasMoved ft8_ui
ft8_moved = inl (λ e. absurd (ground (arith, e)))

frequency_changed-ft8_example :
    (eq_ℤ (form_of (frequency_changed ft8_ui)).controller.vfo0 (pos 14074000) ≡ true)
    × ((form_of (frequency_changed ft8_ui)).current_tx_freq ≡ pos 14074000)
    × (messages_of (frequency_changed ft8_ui) ≡ [])
frequency_changed-ft8_example = frequency_changed-ft8 ft8_ui ft8_moved refl

abbrev both_ui : Ui
both_ui = ui_in split_none (pos 14074100) (pos 14074200)

both_moved : HasMoved both_ui
both_moved = inl (λ e. absurd (ground (arith, e)))

abbrev split_ui : Ui
split_ui = ui_in split_tx_rx (pos 14074000) (pos 14075000)

split_moved : HasMoved split_ui
split_moved = inr (λ e. absurd (ground (arith, e)))

abbrev differs : Bool
differs = not (eq_ℤ (pos 14075000) (pos 14074000)) && ltb_ℤ (pos 0) (pos 14075000)
