-- ===== src/Packet/Messages.antt =====
-- SDRunoPlugin_TXLink/WSJTX_Packet.h: the classes of the other messages. Erase, Reply, Closed,
-- Replay, HaltTx, FreeText and WSPRDecode add nothing to the base class.
use sdr_plugin_txlink_wsjt_x.Base.{ℕ, Bool, Bytes, ℤ, to_unsigned, to_signed}
use sdr_plugin_txlink_wsjt_x.Packet.{
  M, ◌>>=◌, done, DateTime, get_bool, get_int32, get_uint32, get_long_long, get_double, read_utf8,
  get_date_time,
}

pub record HeartbeatPacket : Type 0 where
  pub maximum_schema : ℕ
  pub version : Bytes
  pub revision : Bytes

unfoldable pub decode_heartbeat : M HeartbeatPacket
decode_heartbeat = do
  schema ← get_uint32
  version ← read_utf8
  revision ← read_utf8
  done (record { maximum_schema = schema; version = version; revision = revision })

pub record DecodePacket : Type 0 where
  pub is_new : Bool
  pub time : ℕ
  pub snr : ℤ
  pub delta_time : ℕ
  pub delta_frequency : ℕ
  pub mode : Bytes
  pub message : Bytes
  pub low_confidence : Bool
  pub off_air : Bool

unfoldable pub decode_decode : M DecodePacket
decode_decode = do
  is_new ← get_bool
  time ← get_uint32
  snr ← get_int32
  delta_time ← get_double
  delta_frequency ← get_uint32
  mode ← read_utf8
  message ← read_utf8
  low_confidence ← get_bool
  off_air ← get_bool
  done (record {
    is_new = is_new;
    time = time;
    snr = snr;
    delta_time = delta_time;
    delta_frequency = delta_frequency;
    mode = mode;
    message = message;
    low_confidence = low_confidence;
    off_air = off_air;
  })

pub record LoggedPacket : Type 0 where
  pub off : DateTime
  pub dx_call : Bytes
  pub dx_grid : Bytes
  pub dial_frequency : ℤ
  pub mode : Bytes
  pub report_sent : Bytes
  pub report_received : Bytes
  pub tx_power : Bytes
  pub comments : Bytes
  pub name : Bytes
  pub on : DateTime

unfoldable pub decode_logged : M LoggedPacket
decode_logged = do
  off ← get_date_time
  dx_call ← read_utf8
  dx_grid ← read_utf8
  dial ← get_long_long
  mode ← read_utf8
  sent ← read_utf8
  received ← read_utf8
  power ← read_utf8
  comments ← read_utf8
  name ← read_utf8
  on ← get_date_time
  done (record {
    off = off;
    dx_call = dx_call;
    dx_grid = dx_grid;
    dial_frequency = dial;
    mode = mode;
    report_sent = sent;
    report_received = received;
    tx_power = power;
    comments = comments;
    name = name;
    on = on;
  })

pub record SetFreqPacket : Type 0 where
  pub dial_frequency : ℕ
  pub tx_enabled : Bool
  pub mode : Bytes
  pub freq_tolerance : ℕ
  pub submode : Bytes
  pub fast_mode : Bool
  pub tx_period : ℤ
  pub rx_df : ℕ
  pub tx_df : ℕ
  pub de_call : Bytes
  pub dx_grid : Bytes
  pub gen_msg : Bool
  pub tx_even : Bool

-- `WSJTX_SetFreq::Decode`: the second frequency and the last integer are read and dropped.
unfoldable pub decode_set_freq : M SetFreqPacket
decode_set_freq = do
  dial ← get_long_long
  tx_frequency ← get_long_long
  tx_enabled ← get_bool
  mode ← read_utf8
  tolerance ← get_uint32
  submode ← read_utf8
  fast_mode ← get_bool
  period ← get_uint32
  rx_df ← get_uint32
  tx_df ← get_uint32
  de_call ← read_utf8
  dx_grid ← read_utf8
  gen_msg ← get_bool
  tx_even ← get_bool
  final_padding ← get_uint32
  done (record {
    dial_frequency = to_unsigned 8 dial;
    tx_enabled = tx_enabled;
    mode = mode;
    freq_tolerance = tolerance;
    submode = submode;
    fast_mode = fast_mode;
    tx_period = to_signed 4 period;
    rx_df = rx_df;
    tx_df = tx_df;
    de_call = de_call;
    dx_grid = dx_grid;
    gen_msg = gen_msg;
    tx_even = tx_even;
  })
