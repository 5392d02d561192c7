-- ===== src/Udp/Received.antt =====
-- From a status datagram of WSJT-X to the globals of the plugin, end to end.
use sdr_plugin_txlink_wsjt_x.Base.{
  ℕ, ◌^◌, ◌<◌, ◌≡◌, ◌≢◌, ◌∙◌, some, true, false, Bytes, arith, length,
}
use sdr_plugin_txlink_wsjt_x.Packet.{Packet, new_packet}
use sdr_plugin_txlink_wsjt_x.Packet.Header.{header_bytes, decode_header-header_bytes}
use sdr_plugin_txlink_wsjt_x.Packet.Status.{StatusPacket, decode_status}
use sdr_plugin_txlink_wsjt_x.Packet.Status.Wire.{FitsWire, IsText}
use sdr_plugin_txlink_wsjt_x.Packet.Status.TxMessage.{status_message, decode_status-status_message}
use sdr_plugin_txlink_wsjt_x.Encode.{Paths, ChildRun, encode_message}
use sdr_plugin_txlink_wsjt_x.Udp.{
  Globals, wait_event, message_of, update_status, status_reply, process_status, process_type,
  process_packet,
}
use sdr_plugin_txlink_wsjt_x.Udp.Update.{update_status_new}

-- A whole status datagram.
abbrev pub status_datagram : ℕ → ℕ → Bytes → StatusPacket → ℕ → ℕ → ℕ → Bytes → Bytes → Bytes
status_datagram magic schema id s special tolerance period configuration message =
    header_bytes magic schema 1 id (status_message s special tolerance period configuration message)

process_type_status :
    (paths : Paths) (child : Bytes → ChildRun) (other : ℕ → Globals → Globals) (p q : Packet)
    (s : StatusPacket) (g : Globals)
    → p.packet_type ≡ 1
    → decode_status (new_packet p.packet p.index) ≡ some (s, q)
    → process_type paths child other p g ≡ some (process_status paths child other s g)
unfolding process_type
process_type_status paths child other p q s g t e = ground (arith, t, e)

module _ (paths : Paths) (child : Bytes → ChildRun) (other : ℕ → Globals → Globals)
    (magic schema : ℕ) (id : Bytes) (s : StatusPacket) (special tolerance period : ℕ)
    (configuration message : Bytes) (g : Globals) (magic_fits : magic < 256 ^ 4)
    (schema_fits : schema < 256 ^ 4) (id_fits : IsText id) (fits : FitsWire s)
    (seven : length configuration ≡ 7)
    (small : IsText
      (status_datagram magic schema id s special tolerance period configuration message)) where
  abbrev pub arrived : StatusPacket
  arrived = record s { default_tx_message = message }

  -- A whole status datagram, with header and fields that fit their types and a configuration name
  -- of seven bytes, is taken by ProcessPacket for exactly the status that was written, the TX
  -- message included.
  pub process_packet-status_datagram :
      process_packet paths child other
        (status_datagram magic schema id s special tolerance period configuration message)
        g
      ≡ some (process_status paths child other arrived g)
  unfolding process_packet
  process_packet-status_datagram =
      let (q, read, _, _, type, _, whole, left) =
        decode_header-header_bytes magic schema 1 id
          (status_message s special tolerance period configuration message) magic_fits schema_fits
          (omega arith) id_fits in
      let (q', body) =
        decode_status-status_message special tolerance period configuration message s
          (new_packet q.packet q.index) fits (rw whole small) left seven in
      rw (read, process_packet) (process_type_status paths child other q q' arrived g type body)

  -- With no event pending and a text that is not the one before, the tones become those of the text.
  pub process_packet_tones :
      g.udp_event ≡ false
      → g.last_tx_msg ≢ message_of arrived
      → (g' : Globals) × (reply : Bytes) × (process_packet paths child other
            (status_datagram magic schema id s special tolerance period configuration message)
            g
          ≡ some (g', reply))
        × (g'.tx_symbols ≡ (encode_message paths child s.mode (message_of arrived)).symbols)
        × (g'.last_tx_msg ≡ message_of arrived)
        × (g'.tx_mode_str ≡ s.mode)
        × (g'.udp_event ≡ true)
  unfolding process_status
  process_packet_tones idle h =
      let (a, b, c, d, f) = update_status_new paths child arrived g h in
      let no_wait : wait_event other 50 g ≡ (g, false) = ground arith in
      (
        update_status paths child arrived g,
        status_reply paths child arrived g,
        process_packet-status_datagram ∙ rw (no_wait, process_status),
        a,
        c,
        d,
        f,
      )
