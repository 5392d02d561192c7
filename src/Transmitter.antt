-- ===== src/Transmitter.antt =====
-- TXlink4_Nano/: the sketch of the Arduino that drives the transmitter, with its global variables
-- and what it does to its pins, to the AD9851 and to the serial line. An `int` has 16 bits there.
-- Temperatures and the readings of the SWR bridge are in thousandths, where the source has doubles.
pub mod Numbers
pub mod Chip
pub mod Texts
pub mod Commands
pub mod Serial
pub mod Start
pub mod Gauss
pub mod Baudot
pub mod Rtty
pub mod Setup
pub mod Safety
pub mod Message
pub mod MainLoop
pub mod Examples
use sdr_plugin_txlink_wsjt_x.Base.{ℕ, List, [], ◌∷◌, ◌++◌, Bool, Bytes, ℤ}
use sdr_plugin_txlink_wsjt_x.Transmitter.Texts.{Fifo}
use sdr_plugin_txlink_wsjt_x.Transmitter.Chip.{Dds}

pub data Pin : Type 0 where
  tx_level_pin key_out tx_out ext_pa_out fan_pin : Pin

pub data Effect : Type 0 where
  digital_write : Pin → Bool → Effect
  analog_write : Pin → ℤ → Effect
  set_ftw : ℕ → Bool → Effect
  print println : Bytes → Effect

pub record Power : Type 0 where
  pub tx_power_on : Bool
  pub local_pa_active : Bool
  pub tx_level : ℤ
  pub ext_pa_level : ℤ
  pub ext_pa_on : Bool

-- What is to be sent in FT4 and FT8.
pub record Digital : Type 0 where
  pub tx_mode : ℤ
  pub digi_tx_on : Bool
  pub ft8_tx_delay : ℤ
  pub ftx_tx_df : ℤ
  pub ftx_tx_last_df : ℤ
  pub ftx_millis_to_end : ℤ
  pub tune_chk : ℕ
  pub ftx_tx_msg : Bytes
  pub ftx_tx_msg_changed : Bool
  pub tx_buffer : List ℕ

-- The parameters of a mode.
pub record Tones : Type 0 where
  pub symbol_count : ℤ
  pub tone_duration : ℕ
  pub tone_spacing_hz_x100 : ℕ
  pub tone_spacing_ftw_incr_x100 : ℕ
  pub g_tran_steps : ℕ
  pub g_tran_micros_per_step : ℕ
  pub g_tran_interp_factor : ℕ

pub record Fan : Type 0 where
  pub hold_start_millis : ℕ
  pub low_pwm : ℤ
  pub hold_time : ℤ
  pub pwm_cur : ℤ

pub record Temperature : Type 0 where
  pub temp_deg : ℤ
  pub is_rx_temp : Bool
  pub temp_tx_offset : ℤ
  pub last_rx_temp : ℤ
  pub tx_temp_lockout : Bool
  pub tx_max_temp : ℤ

pub record Keying : Type 0 where
  pub last_key_up_millis : ℕ
  pub key_down_millis : ℕ
  pub tx_hold_time : ℤ
  pub key_down_active : Bool

pub record Sketch : Type 0 where
  pub cur_freq : ℕ
  pub last_khz : ℤ
  pub calibration : ℤ
  pub dds : Dds
  pub power : Power
  pub digital : Digital
  pub tones : Tones
  pub fan : Fan
  pub temperature : Temperature
  pub keying : Keying
  pub avg_counter : ℕ
  pub queue : Fifo
  pub chr_command : Bytes
  pub effects : List Effect

abbrev pub perform : Effect → Sketch → Sketch
perform e s = record s { effects = s.effects ++ e ∷ [] }
