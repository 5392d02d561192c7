-- ===== src/Packet/Status.antt =====
-- SDRunoPlugin_TXLink/WSJTX_Packet.h: WSJTX_Status, the status message of WSJT-X.
pub mod Wire
pub mod TxMessage
use sdr_plugin_txlink_wsjt_x.Base.{ℕ, Bool, Bytes, to_unsigned}
use sdr_plugin_txlink_wsjt_x.Packet.{
  M, ◌>>=◌, done, get_bool, get_uint32, get_long_long, read_utf8, get_default_tx_message,
}

pub record StatusPacket : Type 0 where
  pub frequency : ℕ
  pub mode : Bytes
  pub dx_call : Bytes
  pub report : Bytes
  pub tx_mode : Bytes
  pub tx_enabled : Bool
  pub transmitting : Bool
  pub decoding : Bool
  pub rx_df : ℕ
  pub tx_df : ℕ
  pub de_call : Bytes
  pub de_grid : Bytes
  pub dx_grid : Bytes
  pub tx_watchdog : Bool
  pub submode : Bytes
  pub fast_mode : Bool
  pub default_tx_message : Bytes

-- `WSJTX_Status::Decode`, from the packet's index on.
unfoldable pub decode_status : M StatusPacket
decode_status = do
  freq ← get_long_long
  mode ← read_utf8
  dx_call ← read_utf8
  report ← read_utf8
  tx_mode ← read_utf8
  tx_enabled ← get_bool
  transmitting ← get_bool
  decoding ← get_bool
  rx_df ← get_uint32
  tx_df ← get_uint32
  de_call ← read_utf8
  de_grid ← read_utf8
  dx_grid ← read_utf8
  tx_watchdog ← get_bool
  submode ← read_utf8
  fast_mode ← get_bool
  message ← get_default_tx_message
  done (record {
    frequency = to_unsigned 8 freq;
    mode = mode;
    dx_call = dx_call;
    report = report;
    tx_mode = tx_mode;
    tx_enabled = tx_enabled;
    transmitting = transmitting;
    decoding = decoding;
    rx_df = rx_df;
    tx_df = tx_df;
    de_call = de_call;
    de_grid = de_grid;
    dx_grid = dx_grid;
    tx_watchdog = tx_watchdog;
    submode = submode;
    fast_mode = fast_mode;
    default_tx_message = message;
  })
