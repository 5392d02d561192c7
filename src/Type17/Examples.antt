-- ===== src/Type17/Examples.antt =====
-- UDP_Type17.cpp on a concrete command.
use sdr_plugin_txlink_wsjt_x.Base.{
  ◌≡◌, ◌≢◌, ◌⊎◌, refl, [], ◌∷◌, Bool, true, false, Bytes, arith, codes, le_bytes, byte_swap,
}
use sdr_plugin_txlink_wsjt_x.Type17.{
  append_be_uint32, append_be_uint64, append_qutf8, SetFreqCommand, message_buffer,
  send_set_freq_command,
}
use sdr_plugin_txlink_wsjt_x.Type17.Layout.{FitsCommand, send_set_freq_command_ignores}

abbrev on_20m : SetFreqCommand
on_20m = record {
  session_id = codes "MyClientApp";
  dial_frequency_hz = 14074000;
  tx_enabled = true;
  mode = codes "FT8";
  freq_tolerance = 2500;
  sub_mode = [];
  fast_mode = false;
  tr_period = 15;
  rx_df = 1500;
  tx_df = 1500;
  dx_call = codes "DX_CALL";
  dx_grid = codes "GRID";
  generate_messages = true;
  tx_even = false;
}

on_20m-FitsCommand : FitsCommand on_20m
on_20m-FitsCommand = record {
  session_id = omega arith;
  mode = omega arith;
  sub_mode = omega arith;
  dx_call = omega arith;
  dx_grid = omega arith;
}

abbrev sends : Bytes → Bool
sends b = true

send_set_freq_command_ignores_example :
    ((true ≡ true)
      × ((b : Bytes) × (send_set_freq_command true sends on_20m ≡ (b ∷ [], sends b))
          × (b ≢ message_buffer on_20m)))
    ⊎ ((true ≡ false) × (send_set_freq_command true sends on_20m ≡ ([], false)))
send_set_freq_command_ignores_example =
    send_set_freq_command_ignores true sends on_20m on_20m-FitsCommand

-- The name and the frequency of a buffer.
buffer_head :
    append_be_uint64 (append_qutf8 [] (codes "AB")) 14074000
    ≡ 0 ∷ 0 ∷ 0 ∷ 2 ∷ b'A' ∷ b'B' ∷ 0 ∷ 0 ∷ 0 ∷ 0 ∷ 0 ∷ 0xD6 ∷ 0xC0 ∷ 0x90 ∷ []
unfolding append_be_uint64 append_qutf8 append_be_uint32 le_bytes byte_swap
buffer_head = refl
