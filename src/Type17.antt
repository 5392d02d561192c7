-- ===== src/Type17.antt =====
-- SDRunoPlugin_TXLink/UDP_Type17.cpp: the SetFreq datagram that the plugin sends to WSJT-X.
-- `inet_pton` and `sendto` belong to the system: their results are arguments.
pub mod Layout
pub mod Examples
use sdr_plugin_txlink_wsjt_x.Base.{
  ℕ, ◌+◌, ◌^◌, ◌%◌, List, [], ◌∷◌, ◌++◌, Bool, true, false, Bytes, length, le_bytes, byte_swap,
  if◌then◌else◌,
}

-- `htonl`, then the bytes of the result as the host stores them.
unfoldable pub append_be_uint32 : Bytes → ℕ → Bytes
append_be_uint32 buffer value = let be_value = byte_swap 4 value in buffer ++ le_bytes 4 be_value

unfoldable pub append_be_uint64 : Bytes → ℕ → Bytes
append_be_uint64 buffer value = let be_value = byte_swap 8 value in buffer ++ le_bytes 8 be_value

unfoldable pub append_qutf8 : Bytes → Bytes → Bytes
append_qutf8 buffer str = let len = length str % 256 ^ 4 in append_be_uint32 buffer len ++ str

unfoldable pub push_bool : Bytes → Bool → Bytes
push_bool buffer b = buffer ++ (if b then 1 else 0) ∷ []

-- The arguments of `sendSetFreqCommand` behind the socket.
pub record SetFreqCommand : Type 0 where
  pub session_id : Bytes
  pub dial_frequency_hz : ℕ
  pub tx_enabled : Bool
  pub mode : Bytes
  pub freq_tolerance : ℕ
  pub sub_mode : Bytes
  pub fast_mode : Bool
  pub tr_period : ℕ
  pub rx_df : ℕ
  pub tx_df : ℕ
  pub dx_call : Bytes
  pub dx_grid : Bytes
  pub generate_messages : Bool
  pub tx_even : Bool

-- The first part of `sendSetFreqCommand`: `messageBuffer`.
unfoldable pub message_buffer : SetFreqCommand → Bytes
message_buffer c =
    let b1 = append_be_uint32 [] 0xADBCCBDA in
    let b2 = append_be_uint32 b1 3 in
    let b3 = append_be_uint32 b2 17 in
    let b4 = append_qutf8 b3 c.session_id in
    let b5 = append_be_uint64 b4 c.dial_frequency_hz in
    let b6 = push_bool b5 c.tx_enabled in
    let b7 = append_qutf8 b6 c.mode in
    let b8 = append_be_uint32 b7 c.freq_tolerance in
    let b9 = append_qutf8 b8 c.sub_mode in
    let b10 = push_bool b9 c.fast_mode in
    let b11 = append_be_uint32 b10 c.tr_period in
    let b12 = append_be_uint32 b11 c.rx_df in
    let b13 = append_be_uint32 b12 c.tx_df in
    let b14 = append_qutf8 b13 c.dx_call in
    let b15 = append_qutf8 b14 c.dx_grid in
    let b16 = push_bool b15 c.generate_messages in push_bool b16 c.tx_even

-- The constant that is sent: 96 initialisers of 97 chars, the last of which is zero.
abbrev pub raw_packet_data : Bytes
raw_packet_data =
    0xAD ∷ 0xBC ∷ 0xCB ∷ 0xDA ∷ 0x00 ∷ 0x00 ∷ 0x00 ∷ 0x03 ∷ 0x00 ∷ 0x00 ∷ 0x00 ∷ 0x16 ∷ 0x00 ∷ 0x00
    ∷ 0x00 ∷ 0x06 ∷ 0x57 ∷ 0x53 ∷ 0x4A ∷ 0x54 ∷ 0x2D ∷ 0x59 ∷ 0x00 ∷ 0x00 ∷ 0x00 ∷ 0x00 ∷ 0x01
    ∷ 0xAC ∷ 0x60 ∷ 0x10 ∷ 0x00 ∷ 0x00 ∷ 0x00 ∷ 0x06 ∷ 0x89 ∷ 0x57 ∷ 0x3E ∷ 0x80 ∷ 0x00 ∷ 0x00
    ∷ 0x00 ∷ 0x00 ∷ 0x03 ∷ 0x46 ∷ 0x54 ∷ 0x38 ∷ 0x00 ∷ 0x00 ∷ 0x09 ∷ 0xC4 ∷ 0x00 ∷ 0x00 ∷ 0x00
    ∷ 0x00 ∷ 0x00 ∷ 0x00 ∷ 0x00 ∷ 0x00 ∷ 0x0F ∷ 0x00 ∷ 0x00 ∷ 0x05 ∷ 0xDC ∷ 0x00 ∷ 0x00 ∷ 0x05
    ∷ 0xDC ∷ 0x00 ∷ 0x00 ∷ 0x00 ∷ 0x07 ∷ 0x44 ∷ 0x58 ∷ 0x5F ∷ 0x43 ∷ 0x41 ∷ 0x4C ∷ 0x4C ∷ 0x00
    ∷ 0x00 ∷ 0x00 ∷ 0x04 ∷ 0x47 ∷ 0x52 ∷ 0x49 ∷ 0x44 ∷ 0x01 ∷ 0x00 ∷ 0x00 ∷ 0x00 ∷ 0x00 ∷ 0x00
    ∷ 0x00 ∷ 0x00 ∷ 0x00 ∷ 0x00 ∷ 0x00 ∷ []

-- What the call leaves behind: the datagrams handed to `sendto`, and the Boolean result.
-- `sent ok` of a datagram is whether `sendto` returns something other than SOCKET_ERROR.
unfoldable pub send_set_freq_command : Bool → (Bytes → Bool) → SetFreqCommand → List Bytes × Bool
unfolding message_buffer
send_set_freq_command address_ok sendto c =
    let buffer = message_buffer c in
    if address_ok then (raw_packet_data ∷ [], sendto raw_packet_data) else ([], false)
