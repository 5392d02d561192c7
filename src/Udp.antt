-- ===== src/Udp.antt =====
-- SDRunoPlugin_TXLink/UDP_Server.cpp: ProcessPacket, and the globals that it shares with the form.
-- The form's thread works on the same globals: what it does while ProcessPacket sleeps is an
-- argument, `other_threads`, one step for each sleep.
pub mod Loop
pub mod Dispatch
pub mod Update
pub mod Received
pub mod Drain
pub mod Examples
use sdr_plugin_txlink_wsjt_x.Base.{
  ℕ, zero, suc, [], ◌∷◌, ◌++◌, Option, none, some, Bool, true, false, not, ◌&&◌, ◌||◌, Bytes, ℤ,
  to_signed, codes, str_eq, to_string, ◌==◌, if◌then◌else◌,
}
use sdr_plugin_txlink_wsjt_x.Packet.{Packet, M, ◌>>=◌, done, new_packet, decode_header}
use sdr_plugin_txlink_wsjt_x.Packet.Messages.{decode_decode, decode_set_freq}
use sdr_plugin_txlink_wsjt_x.Packet.Status.{StatusPacket, decode_status}
use sdr_plugin_txlink_wsjt_x.Encode.{
  Paths, ChildRun, Encoded, is_nil, remove_trailing_spaces, encode_message,
}

pub record Globals : Type 0 where
  pub udp_exit_request : Bool
  pub udp_event : Bool
  pub udp_halt_tx_event : Bool
  pub tx_flg : Bool
  pub tx_df : ℤ
  pub tx_mode_str : Bytes
  pub last_tx_msg : Bytes
  pub tx_mode_change : Bool
  pub dx_call : Bytes
  pub dx_grid : Bytes
  pub new_dx_call : Bytes
  pub str_report : Bytes
  pub rx_df : ℕ
  pub str_decode_msg : Bytes
  pub cur_frequency : ℕ
  pub new_frequency : ℕ
  pub tx_symbols : Bytes

-- The wait for the form to take the event before: at most `left` more sleeps. The Boolean says
-- that the exit request was seen.
unfoldable pub wait_event : (ℕ → Globals → Globals) → ℕ → Globals → Globals × Bool
wait_event other_threads zero g = (g, false)
wait_event other_threads (suc left) g =
    let slept = other_threads left g in
    let again = wait_event other_threads left slept in
    let woken = if slept.udp_exit_request then (slept, true) else again in
    if g.udp_event then woken else (g, false)

abbrev pub message_of : StatusPacket → Bytes
message_of s =
    let msg = remove_trailing_spaces s.default_tx_message in
    if is_nil msg then codes "CQ G4AHN IO91" else msg

-- The part of the status branch from the frequency to `TXDF`.
unfoldable pub update_radio : StatusPacket → Globals → Globals
update_radio s g =
    let changed = not (s.frequency == g.cur_frequency) && g.new_frequency == 0 in
    record g {
      new_frequency = if changed then s.frequency else g.new_frequency;
      cur_frequency = if changed then s.frequency else g.cur_frequency;
      tx_mode_change = if not (str_eq g.tx_mode_str s.mode) then true else g.tx_mode_change;
      tx_mode_str = s.mode;
      udp_halt_tx_event =
          if g.tx_flg && not s.transmitting && not s.tx_enabled then true else g.udp_halt_tx_event;
      tx_flg = s.transmitting;
      tx_df = to_signed 4 s.tx_df;
    }

abbrev pub message_changed : Bytes → Globals → Bool
message_changed msg g = is_nil g.last_tx_msg || not (str_eq g.last_tx_msg msg)

unfoldable pub update_dx : StatusPacket → Globals → Globals
update_dx s g = record g {
  new_dx_call = if not (str_eq s.dx_call g.dx_call) then s.dx_call else g.new_dx_call;
  dx_call = s.dx_call;
  dx_grid = s.dx_grid;
  str_report = s.report;
  rx_df = s.rx_df;
  udp_event = true;
}

module _ (paths : Paths) (child : Bytes → ChildRun) where
  -- The message is encoded again only if its text has changed.
  unfoldable pub update_message : Bytes → Globals → Globals
  update_message msg g =
      let e = encode_message paths child g.tx_mode_str msg in
      if message_changed msg g
      then record g { tx_symbols = e.symbols; str_decode_msg = e.decode_msg; last_tx_msg = msg }
      else record g { last_tx_msg = msg }

  -- The status branch behind the wait.
  unfoldable pub update_status : StatusPacket → Globals → Globals
  unfolding update_radio update_message update_dx
  update_status s g = update_dx s (update_message (message_of s) (update_radio s g))

  abbrev pub status_reply : StatusPacket → Globals → Bytes
  status_reply s g =
      if message_changed (message_of s) g
      then codes "Status"
      else codes "Status" ++ (codes ": Msg unchanged: " ++ message_of s)

  module _ (other_threads : ℕ → Globals → Globals) where
    unfoldable pub process_status : StatusPacket → Globals → Globals × Bytes
    unfolding wait_event update_status
    process_status s g =
        let (g', leaving) = wait_event other_threads 50 g in
        if leaving
        then (g', codes "UDP_Server: UDPExitRequest")
        else (update_status s g', status_reply s g')

    -- A body that is decoded by `m` from the header's index on.
    abbrev pub with_body :
        {A : Type 0} → M A → Packet → (A → Globals × Bytes) → Option (Globals × Bytes)
    with_body m p f = elim (m (new_packet p.packet p.index)) [
      | none ↦ none
      | some (a, q) ↦ some (f a)
    ]

    -- The branches of ProcessPacket on the type.
    unfoldable pub process_type : Packet → Globals → Option (Globals × Bytes)
    unfolding process_status
    process_type p g =
        if p.packet_type == 0
        then some (g, codes "Heartbeat")
        else if p.packet_type == 1
        then with_body decode_status p (λ s. process_status s g)
        else if p.packet_type == 2
        then with_body decode_decode p (λ d. (g, codes "Decode: " ++ d.message))
        else if p.packet_type == 3
        then some (g, codes "Erase")
        else if p.packet_type == 4
        then some (g, codes "Reply")
        else if p.packet_type == 5
        then some (g, codes "Logged")
        else if p.packet_type == 17
        then with_body decode_set_freq p (λ s. (g, codes "SetFreq"))
        else some (g, codes "Unknown " ++ to_string p.packet_type)

    -- `none` where the decoders read outside the datagram.
    unfoldable pub process_packet : Bytes → Globals → Option (Globals × Bytes)
    unfolding process_type
    process_packet message g = elim (decode_header (new_packet message 0)) [
      | none ↦ none
      | some p ↦ process_type p g
    ]

-- `strPacketType`.
unfoldable pub str_packet_type : ℕ → Bytes
str_packet_type type =
    if type == 0
    then codes "Heartbeat"
    else if type == 1
    then codes "Status"
    else if type == 2
    then codes "Decode"
    else if type == 3
    then codes "Erase"
    else if type == 4
    then codes "Reply"
    else if type == 5
    then codes "Logged"
    else if type == 6
    then codes "Close"
    else if type == 7
    then codes "HeartbeatEx"
    else if type == 8
    then codes "StatusEx"
    else if type == 9
    then codes "DecodeEx"
    else if type == 10
    then codes "WSPRDecode"
    else if type == 17
    then codes "SetFreq"
    else codes "Unknown"
