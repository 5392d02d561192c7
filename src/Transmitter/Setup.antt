-- ===== src/Transmitter/Setup.antt =====
-- TXlink4_Nano/TXlink4_Nano.ino: the global variables at the start, and `setup`.
use sdr_plugin_txlink_wsjt_x.Base.{
  refl, List, [], ◌∷◌, ◌++◌, true, false, pos, negsuc, codes, replicate, arith,
}
use sdr_plugin_txlink_wsjt_x.Transmitter.{
  Sketch, Effect, println, digital_write, analog_write, tx_out, ext_pa_out, key_out, fan_pin,
  tx_level_pin,
}
use sdr_plugin_txlink_wsjt_x.Transmitter.Texts.{initialise_queue}
use sdr_plugin_txlink_wsjt_x.Transmitter.Texts.Ring.{initialise_queue-IsRing}
use sdr_plugin_txlink_wsjt_x.Transmitter.Chip.{set_clock}
use sdr_plugin_txlink_wsjt_x.Transmitter.Commands.{
  ft8_tones, ft8_tx_msg_err, set_dig_defaults, set_frequency_hz, set_frequency_hz_x10,
}
use sdr_plugin_txlink_wsjt_x.Transmitter.Serial.Sound.{IsSound}

-- The variables as they are declared; the tones are those that `setup` sets.
unfoldable pub declared : Sketch
declared = record {
  cur_freq = 10_120_000;
  last_khz = pos 0;
  calibration = pos 0;
  dds = set_clock (pos 0) (record { reciprocal = 0; shift = 0; current_ftw = 0 });
  power = record {
    tx_power_on = false;
    local_pa_active = false;
    tx_level = pos 0;
    ext_pa_level = pos 0;
    ext_pa_on = false;
  };
  digital = record {
    tx_mode = pos 8;
    digi_tx_on = false;
    ft8_tx_delay = pos 250;
    ftx_tx_df = pos 0;
    ftx_tx_last_df = pos 0;
    ftx_millis_to_end = pos 14_999;
    tune_chk = 0;
    ftx_tx_msg = ft8_tx_msg_err;
    ftx_tx_msg_changed = false;
    tx_buffer = replicate 106 0;
  };
  tones = ft8_tones;
  fan = record {
    hold_start_millis = 0;
    low_pwm = pos 150;
    hold_time = pos 180_000;
    pwm_cur = pos 0;
  };
  temperature = record {
    temp_deg = pos 0;
    is_rx_temp = true;
    temp_tx_offset = pos 0;
    last_rx_temp = negsuc 99_999;
    tx_temp_lockout = false;
    tx_max_temp = pos 54_000;
  };
  keying = record {
    last_key_up_millis = 0;
    key_down_millis = 0;
    tx_hold_time = pos 400;
    key_down_active = false;
  };
  avg_counter = 0;
  queue = initialise_queue;
  chr_command = [];
  effects = [];
}

-- What `setup` writes to the line and the pins, in order.
abbrev pub setup_effects : Sketch → List Effect
setup_effects s =
    println (codes "{~TX}")
    ∷ digital_write tx_out false
    ∷ digital_write ext_pa_out false
    ∷ digital_write key_out true
    ∷ analog_write fan_pin (pos 255)
    ∷ analog_write fan_pin s.fan.pwm_cur
    ∷ analog_write tx_level_pin (pos 255)
    ∷ []

-- The chip is reset to 1 Hz, and then `setup` runs.
unfoldable pub setup : Sketch → Sketch
unfolding set_dig_defaults set_frequency_hz
setup s =
    let r : Sketch = set_frequency_hz 1 false s in
    record (set_dig_defaults (record r { effects = r.effects ++ setup_effects r })) {
      queue = initialise_queue;
    }

pub setup-IsSound : IsSound (setup declared)
unfolding setup declared set_dig_defaults set_frequency_hz set_frequency_hz_x10
setup-IsSound = record {
  holds = (
    omega arith,
    omega arith,
    refl,
    ((λ _. refl), (λ e. absurd (cc)), (λ e. absurd (cc)), omega arith),
    initialise_queue-IsRing,
  );
}
