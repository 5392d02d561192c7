-- ===== src/Packet/Examples.antt =====
-- WSJTX_Packet.h on concrete datagrams.
use sdr_plugin_txlink_wsjt_x.Base.{
  ◌+◌, ◌-◌, ◌^◌, ◌≡◌, ◌↔◌, refl, [], ◌∷◌, ◌++◌, none, replicate, some, true, false, Bytes, negsuc,
  arith, codes, length, be_bytes, of_le,
}
use sdr_plugin_txlink_wsjt_x.Packet.{
  Packet, new_packet, fetch, fetch_reversed, get_bool, get_int32, get_uint32, get_long_long,
  read_utf8, get_default_tx_message,
}
use sdr_plugin_txlink_wsjt_x.Packet.Messages.{DecodePacket}
use sdr_plugin_txlink_wsjt_x.Packet.Header.{FitsDecode}
use sdr_plugin_txlink_wsjt_x.Packet.Status.{StatusPacket, decode_status}
use sdr_plugin_txlink_wsjt_x.Packet.Status.Wire.{FitsWire, IsText}
use sdr_plugin_txlink_wsjt_x.Packet.Status.TxMessage.{status_message, default_tx_message_iff}
use sdr_plugin_txlink_wsjt_x.Packet.Bounds.{
  heartbeat, decode_body, body_size, ReadsTo, decode_body-least,
}

abbrev status : StatusPacket
status = record {
  frequency = 14074000;
  mode = codes "FT8";
  dx_call = codes "G4AHN";
  report = codes "-12";
  tx_mode = codes "FT8";
  tx_enabled = true;
  transmitting = true;
  decoding = false;
  rx_df = 1500;
  tx_df = 1200;
  de_call = codes "K1ABC";
  de_grid = codes "FN42";
  dx_grid = codes "IO91";
  tx_watchdog = false;
  submode = [];
  fast_mode = false;
  default_tx_message = codes "CQ K1ABC FN42";
}

abbrev tx_message : Bytes
tx_message = codes "CQ K1ABC FN42"

abbrev status_packet : Bytes → Packet
status_packet configuration = new_packet (status_message status 0 20 15 configuration tx_message) 0

abbrev behind : Bytes → Packet
behind configuration = record (status_packet configuration) {
  index = 80 + length (status_packet configuration).packet;
}

read_default :
    decode_status (status_packet (codes "Default")) ≡ some (status, behind (codes "Default"))
unfolding decode_status get_long_long fetch_reversed fetch be_bytes read_utf8 get_int32 of_le
    get_bool get_uint32 get_default_tx_message
read_default = refl

-- With a configuration of four letters the first three bytes of the message are lost.
read_home :
    decode_status (status_packet (codes "Home"))
    ≡ some (record status { default_tx_message = codes "K1ABC FN42" }, behind (codes "Home"))
unfolding decode_status get_long_long fetch_reversed fetch be_bytes read_utf8 get_int32 of_le
    get_bool get_uint32 get_default_tx_message
read_home = refl

status-FitsWire : FitsWire status
status-FitsWire = record {
  frequency = omega arith;
  mode = omega arith;
  dx_call = omega arith;
  report = omega arith;
  tx_mode = omega arith;
  rx_df = omega arith;
  tx_df = omega arith;
  de_call = omega arith;
  de_grid = omega arith;
  dx_grid = omega arith;
  submode = omega arith;
}

small_home : IsText (status_packet (codes "Home")).packet
unfolding be_bytes
small_home = omega arith

default_tx_message_iff_example : (codes "K1ABC FN42" ≡ tx_message) ↔ (length (codes "Home") ≡ 7)
default_tx_message_iff_example =
    default_tx_message_iff 0 20 15 (codes "Home") tx_message status (status_packet (codes "Home"))
      status-FitsWire small_home refl (record status { default_tx_message = codes "K1ABC FN42" })
      (behind (codes "Home")) read_home

abbrev decoded : DecodePacket
decoded = record {
  is_new = true;
  time = 43200000;
  snr = negsuc 11;
  delta_time = 4602678819172646912;
  delta_frequency = 1500;
  mode = codes "~";
  message = codes "CQ K1ABC FN42";
  low_confidence = false;
  off_air = false;
}

decoded-FitsDecode : FitsDecode decoded (256 ^ 4 - 12)
decoded-FitsDecode = record {
  time = omega arith;
  snr_pattern = omega arith;
  snr_value = refl;
  delta_time = omega arith;
  delta_frequency = omega arith;
  mode = omega arith;
  message = omega arith;
}

-- A heartbeat that is cut behind its first field.
abbrev cut_heartbeat : Packet
cut_heartbeat = new_packet (0 ∷ 0 ∷ 0 ∷ 3 ∷ 0 ∷ 0 ∷ []) 0

decode_body-least_example :
    decode_body heartbeat cut_heartbeat ≡ none
    × ReadsTo
        (body_size heartbeat)
        (decode_body heartbeat (new_packet (replicate (body_size heartbeat) 0 ++ codes "more") 0))
decode_body-least_example =
    decode_body-least heartbeat cut_heartbeat (codes "more") (omega arith) (omega arith)
