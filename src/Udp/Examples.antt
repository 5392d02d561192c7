-- ===== src/Udp/Examples.antt =====
-- UDP_Server.cpp on concrete datagrams and rounds.
use sdr_plugin_txlink_wsjt_x.Base.{
  ℕ, ◌≡◌, ◌≢◌, ◌↔◌, ◌⊎◌, refl, [], ◌∷◌, some, true, false, Bytes, pos, arith, codes, length,
  be_bytes, of_le, le_bytes, if◌then◌else◌, ◌==◌,
}
use sdr_plugin_txlink_wsjt_x.Packet.{
  Packet, decode_header, read_header, fetch, fetch_reversed, get_uint32, get_int32, read_utf8,
}
use sdr_plugin_txlink_wsjt_x.Packet.Status.{StatusPacket}
use sdr_plugin_txlink_wsjt_x.Packet.Status.Wire.{FitsWire, IsText}
use sdr_plugin_txlink_wsjt_x.Encode.{
  Paths, ChildRun, ft8, ft4, encode_message, remove_trailing_spaces, find_last_not_space,
}
use sdr_plugin_txlink_wsjt_x.Udp.{
  Globals, message_of, update_status, process_status, process_packet,
}
use sdr_plugin_txlink_wsjt_x.Udp.Update.{
  HasTones, update_status-HasTones, update_status_stale, update_status-frequency,
  update_status-halt,
}
use sdr_plugin_txlink_wsjt_x.Udp.Dispatch.{Ends, process_status_waits}
use sdr_plugin_txlink_wsjt_x.Udp.Received.{status_datagram, process_packet-status_datagram}
use sdr_plugin_txlink_wsjt_x.Udp.Loop.{
  failed, datagram, Received, Round, Server, set_freq, send_pending, running, stopped, round,
}

abbrev paths : Paths
paths = record { ft8_path = codes "ft8code.exe"; ft4_path = codes "ft4code.exe" }

-- A system on which no pipe can be made.
abbrev no_pipe : Bytes → ChildRun
no_pipe line = record {
  pipe_created = false;
  handle_set = false;
  process_created = false;
  output = [];
}

abbrev idle : ℕ → Globals → Globals
idle n g = g

abbrev cq : Bytes
cq = codes "CQ K1ABC FN42"

abbrev tones_of_cq : Bytes
tones_of_cq = (encode_message paths no_pipe ft8 cq).symbols

abbrev before : Globals
before = record {
  udp_exit_request = false;
  udp_event = false;
  udp_halt_tx_event = false;
  tx_flg = true;
  tx_df = pos 0;
  tx_mode_str = codes "FT8";
  last_tx_msg = codes "CQ K1ABC FN42";
  tx_mode_change = false;
  dx_call = [];
  dx_grid = [];
  new_dx_call = [];
  str_report = [];
  rx_df = 0;
  str_decode_msg = (encode_message paths no_pipe ft8 cq).decode_msg;
  cur_frequency = 7074000;
  new_frequency = 0;
  tx_symbols = tones_of_cq;
}

abbrev status : StatusPacket
status = record {
  frequency = 14074000;
  mode = codes "FT4";
  dx_call = codes "G4AHN";
  report = codes "-12";
  tx_mode = codes "FT4";
  tx_enabled = false;
  transmitting = false;
  decoding = false;
  rx_df = 1500;
  tx_df = 1200;
  de_call = codes "K1ABC";
  de_grid = codes "FN42";
  dx_grid = codes "IO91";
  tx_watchdog = false;
  submode = [];
  fast_mode = false;
  default_tx_message = codes "CQ K1ABC FN42  ";
}

status-FitsWire : FitsWire status
status-FitsWire = record {
  frequency = omega arith;
  mode = omega arith;
  dx_call = omega arith;
  report = omega arith;
  tx_mode = omega arith;
  rx_df = omega arith;
  tx_df = omega arith;
  de_call = omega arith;
  de_grid = omega arith;
  dx_grid = omega arith;
  submode = omega arith;
}

abbrev status_bytes : Bytes
status_bytes = status_datagram 0xADBCCBDA 2 (codes "WSJT-X") status 0 20 15 (codes "Default") cq

small_status : IsText status_bytes
unfolding be_bytes le_bytes
small_status = omega arith

process_packet-status_datagram_example :
    process_packet paths no_pipe idle status_bytes before
    ≡ some (process_status paths no_pipe idle (record status { default_tx_message = cq }) before)
process_packet-status_datagram_example =
    process_packet-status_datagram paths no_pipe idle 0xADBCCBDA 2 (codes "WSJT-X") status 0 20 15
      (codes "Default") cq before (omega arith) (omega arith) (omega arith) status-FitsWire refl
      small_status

before-HasTones : HasTones paths no_pipe before
before-HasTones = record { tone_mode = ft8; tones = refl; decoded = refl }

update_status-HasTones_example : HasTones paths no_pipe (update_status paths no_pipe status before)
update_status-HasTones_example = update_status-HasTones paths no_pipe status before before-HasTones

same_text : cq ≡ message_of status
unfolding remove_trailing_spaces find_last_not_space
same_text = refl

update_status_stale_example :
    ((update_status paths no_pipe status before).tx_mode_str ≡ ft4)
    × (length (update_status paths no_pipe status before).tx_symbols ≡ 79)
update_status_stale_example = update_status_stale paths no_pipe status before refl refl same_text

abbrev after : Globals
after = update_status paths no_pipe status before

update_status-frequency_example :
    ((before.new_frequency ≡ 0)
      × (after.cur_frequency ≡ 14074000)
      × (after.new_frequency ≡ 14074000))
    ⊎ ((before.new_frequency ≢ 0)
        × (after.cur_frequency ≡ before.cur_frequency)
        × (after.new_frequency ≡ before.new_frequency))
update_status-frequency_example = update_status-frequency paths no_pipe status before

update_status-halt_example :
    ((after.udp_halt_tx_event ≡ true) ↔ (
      (before.udp_halt_tx_event ≡ true)
      ⊎ ((before.tx_flg ≡ true) × (status.transmitting ≡ false) × (status.tx_enabled ≡ false))))
    × (after.tx_flg ≡ status.transmitting)
update_status-halt_example = update_status-halt paths no_pipe status before

abbrev busy : Globals
busy = record before { udp_event = true }

-- The other thread takes the event at its third sleep.
abbrev takes : ℕ → Globals → Globals
takes n g = if n == 47 then record g { udp_event = false } else g

process_status_waits_example :
    Ends paths no_pipe takes status busy (process_status paths no_pipe takes status busy)
process_status_waits_example = process_status_waits paths no_pipe takes status busy

abbrev erase_bytes : Bytes
erase_bytes = 1 ∷ 1 ∷ 1 ∷ 1 ∷ 0 ∷ 0 ∷ 0 ∷ 2 ∷ 0 ∷ 0 ∷ 0 ∷ 3 ∷ 0 ∷ 0 ∷ 0 ∷ 0 ∷ []

abbrev erase_packet : Packet
erase_packet = record {
  index = 16;
  packet = erase_bytes;
  magic_number = 16843009;
  schema_version = 2;
  packet_type = 3;
  client_id = [];
}

erase_answer : process_packet paths no_pipe idle erase_bytes before ≡ some (before, codes "Erase")
unfolding process_packet decode_header read_header fetch_reversed fetch get_uint32 get_int32
    read_utf8 of_le
erase_answer = refl

abbrev server : Server
server = record {
  globals = before;
  udp_out_q = record { queue = 7074000 ∷ 0 ∷ 14074000 ∷ [] };
  wait_count = 3;
  sent = [];
}

abbrev round_with : Received → Round
round_with v = record {
  exit_before = false;
  received = v;
  exit_after = false;
  other_threads = idle;
}

abbrev drained : Server
drained = record {
  globals = before;
  udp_out_q = record { queue = [] };
  wait_count = 0;
  sent = set_freq 7074000 ∷ set_freq 14074000 ∷ [];
}

erase_round :
    round paths no_pipe (round_with (datagram erase_bytes)) server ≡ some (running drained)
unfolding round send_pending process_packet decode_header read_header fetch_reversed fetch
    get_uint32 get_int32 read_utf8 of_le
erase_round = refl

failed_round : round paths no_pipe (round_with failed) server ≡ some (stopped server)
unfolding round
failed_round = refl
