-- ===== src/Type17/Layout.antt =====
-- The layout of the datagram of UDP_Type17.cpp, and what the plugin's own decoder reads of it.
use sdr_plugin_txlink_wsjt_x.Base.{
  ℕ, ◌*◌, ◌^◌, ◌%◌, ◌<◌, ◌≡◌, ◌≢◌, refl, ap, ◌∙◌, ◌⊎◌, inl, inr, [], ◌∷◌, ◌++◌, Option, some, Bool,
  true, false, Bytes, arith, append_assoc, length, get_elem?, le_bytes, be_bytes,
  le_bytes-byte_swap,
}
use sdr_plugin_txlink_wsjt_x.Packet.{Packet, new_packet, decode_header}
use sdr_plugin_txlink_wsjt_x.Packet.Reads.{remaining, bool_byte, utf8_field}
use sdr_plugin_txlink_wsjt_x.Packet.Header.{header_bytes, decode_header-header_bytes}
use sdr_plugin_txlink_wsjt_x.Type17.{
  append_be_uint32, append_be_uint64, append_qutf8, push_bool, SetFreqCommand, message_buffer,
  raw_packet_data, send_set_freq_command,
}

append_be_uint32-be_bytes : (b : Bytes) (v : ℕ) → append_be_uint32 b v ≡ b ++ be_bytes 4 v
unfolding append_be_uint32
append_be_uint32-be_bytes b v = ap (◌++◌ b) (le_bytes-byte_swap 4 v)

append_be_uint64-be_bytes : (b : Bytes) (v : ℕ) → append_be_uint64 b v ≡ b ++ be_bytes 8 v
unfolding append_be_uint64
append_be_uint64-be_bytes b v = ap (◌++◌ b) (le_bytes-byte_swap 8 v)

append_qutf8-utf8_field : (b s : Bytes) → length s < 256 ^ 4 → append_qutf8 b s ≡ b ++ utf8_field s
unfolding append_qutf8
append_qutf8-utf8_field b s h =
    let small : length s % 256 ^ 4 ≡ length s = omega arith in
    rw (small, append_be_uint32-be_bytes b (length s)) (append_assoc b _ s)

-- The fields of SetFreq in the order in which the plugin writes them.
abbrev pub set_freq_fields : SetFreqCommand → Bytes
set_freq_fields c =
    be_bytes 8 c.dial_frequency_hz
    ++ ((bool_byte c.tx_enabled ∷ [])
        ++ (utf8_field c.mode
            ++ (be_bytes 4 c.freq_tolerance
                ++ (utf8_field c.sub_mode
                    ++ ((bool_byte c.fast_mode ∷ [])
                        ++ (be_bytes 4 c.tr_period
                            ++ (be_bytes 4 c.rx_df
                                ++ (be_bytes 4 c.tx_df
                                    ++ (utf8_field c.dx_call
                                        ++ (utf8_field c.dx_grid
                                            ++ (bool_byte c.generate_messages
                                                ∷ bool_byte c.tx_even
                                                ∷ [])))))))))))

pub record FitsCommand (c : SetFreqCommand) : Type 0 where
  pub session_id : 2 * length c.session_id < 256 ^ 4
  pub mode : 2 * length c.mode < 256 ^ 4
  pub sub_mode : 2 * length c.sub_mode < 256 ^ 4
  pub dx_call : 2 * length c.dx_call < 256 ^ 4
  pub dx_grid : 2 * length c.dx_grid < 256 ^ 4

-- For texts that fit their types, the buffer of a command is the header of schema 3 and type 17
-- with the session's name, then the fields in network order.
pub message_buffer-layout :
    (c : SetFreqCommand)
    → FitsCommand c
    → message_buffer c ≡ header_bytes 0xADBCCBDA 3 17 c.session_id (set_freq_fields c)
unfolding message_buffer push_bool
message_buffer-layout c w =
    rw
      (
        append_qutf8-utf8_field _ c.dx_grid (omega (arith, w.dx_grid)),
        append_qutf8-utf8_field _ c.dx_call (omega (arith, w.dx_call)),
        append_be_uint32-be_bytes _ c.tx_df,
        append_be_uint32-be_bytes _ c.rx_df,
        append_be_uint32-be_bytes _ c.tr_period,
        append_qutf8-utf8_field _ c.sub_mode (omega (arith, w.sub_mode)),
        append_be_uint32-be_bytes _ c.freq_tolerance,
        append_qutf8-utf8_field _ c.mode (omega (arith, w.mode)),
        append_be_uint64-be_bytes _ c.dial_frequency_hz,
        append_qutf8-utf8_field _ c.session_id (omega (arith, w.session_id)),
        append_be_uint32-be_bytes _ 17,
        append_be_uint32-be_bytes _ 3,
        append_be_uint32-be_bytes _ 0xADBCCBDA,
      )
      (simp append_assoc)

-- The header of the buffer is read back by the plugin's own decoder, which is then at the fields.
pub decode_header-message_buffer :
    (c : SetFreqCommand)
    → FitsCommand c
    → (q : Packet) × (decode_header (new_packet (message_buffer c) 0) ≡ some q)
      × (q.schema_version ≡ 3)
      × (q.packet_type ≡ 17)
      × (q.client_id ≡ c.session_id)
      × (remaining q ≡ set_freq_fields c)
decode_header-message_buffer c w = rw (message_buffer-layout c w) (
    let (q, read, magic, schema, type, id, same, left) =
      decode_header-header_bytes 0xADBCCBDA 3 17 c.session_id (set_freq_fields c) (omega arith)
        (omega arith) (omega arith) w.session_id in
    (q, read, schema, type, id, left))

-- The 12th byte, the low byte of the type, tells the constant from every buffer.
raw_packet_data_ne : (id rest : Bytes) → raw_packet_data ≢ header_bytes 0xADBCCBDA 3 17 id rest
unfolding be_bytes le_bytes
raw_packet_data_ne id rest e =
    let low : ◌≡◌ {A = Option ℕ} (some 0x16) (some 17) = ap (λ b. get_elem? b 11) e in ground arith

-- For texts that fit their types: when the address parses, one datagram is sent, which is not the
-- buffer that was built of the command; with a bad address none is sent and the result is false.
pub send_set_freq_command_ignores :
    (address_ok : Bool) (sendto : Bytes → Bool) (c : SetFreqCommand)
    → FitsCommand c
    → ((address_ok ≡ true)
        × ((b : Bytes) × (send_set_freq_command address_ok sendto c ≡ (b ∷ [], sendto b))
            × (b ≢ message_buffer c)))
      ⊎ ((address_ok ≡ false) × (send_set_freq_command address_ok sendto c ≡ ([], false)))
unfolding send_set_freq_command
send_set_freq_command_ignores true sendto c w = inl (
  refl,
  (
    raw_packet_data,
    refl,
    λ same. raw_packet_data_ne c.session_id (set_freq_fields c) (same ∙ message_buffer-layout c w),
  ),
)
send_set_freq_command_ignores false sendto c w = inr (refl, refl)
