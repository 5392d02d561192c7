-- ===== src/Packet/Status/Wire.antt =====
-- What WSJTX_Status reads back of the fields that WSJT-X writes (NetworkMessage.hpp, "Status").
use sdr_plugin_txlink_wsjt_x.Base.{
  ◌*◌, ◌^◌, ◌<◌, ◌≡◌, ◌∙◌, [], ◌∷◌, ◌++◌, Option, some, Bytes, to_signed, to_unsigned-to_signed,
  length, be_bytes,
}
use sdr_plugin_txlink_wsjt_x.Packet.{Packet, ◌>>=◌, get_default_tx_message}
use sdr_plugin_txlink_wsjt_x.Packet.Reads.{
  remaining, feed, bool_byte, utf8_field, get_uint32-Takes, get_long_long-Takes, get_bool-Takes,
  read_utf8-Takes,
}
use sdr_plugin_txlink_wsjt_x.Packet.Status.{StatusPacket, decode_status}

-- The fields up to "Fast mode", in the order of the protocol, before the bytes `rest`.
abbrev pub status_fields : StatusPacket → Bytes → Bytes
status_fields s rest =
    be_bytes 8 s.frequency
    ++ (utf8_field s.mode
        ++ (utf8_field s.dx_call
            ++ (utf8_field s.report
                ++ (utf8_field s.tx_mode
                    ++ ((bool_byte s.tx_enabled ∷ [])
                        ++ ((bool_byte s.transmitting ∷ [])
                            ++ ((bool_byte s.decoding ∷ [])
                                ++ (be_bytes 4 s.rx_df
                                    ++ (be_bytes 4 s.tx_df
                                        ++ (utf8_field s.de_call
                                            ++ (utf8_field s.de_grid
                                                ++ (utf8_field s.dx_grid
                                                    ++ ((bool_byte s.tx_watchdog ∷ [])
                                                        ++ (utf8_field s.submode
                                                            ++ ((bool_byte s.fast_mode ∷ [])
                                                            ++ rest)))))))))))))))

-- The fields fit the types that the protocol gives them.
abbrev pub IsText : Bytes → Type 0
IsText s = 2 * length s < 256 ^ 4

pub record FitsWire (s : StatusPacket) : Type 0 where
  pub frequency : s.frequency < 256 ^ 8
  pub mode : IsText s.mode
  pub dx_call : IsText s.dx_call
  pub report : IsText s.report
  pub tx_mode : IsText s.tx_mode
  pub rx_df : s.rx_df < 256 ^ 4
  pub tx_df : s.tx_df < 256 ^ 4
  pub de_call : IsText s.de_call
  pub de_grid : IsText s.de_grid
  pub dx_grid : IsText s.dx_grid
  pub submode : IsText s.submode

-- The reading up to the default TX message: what is left is `rest`, and the packet behind it.
pub decode_status-fields :
    (s : StatusPacket) (rest : Bytes) (p : Packet) (P : Option (StatusPacket × Packet) → Type 0)
    → FitsWire s
    → remaining p ≡ status_fields s rest
    → ((q : Packet)
        → q.packet ≡ p.packet
        → remaining q ≡ rest
        → P ((get_default_tx_message >>= λ m q'. some (record s { default_tx_message = m }, q')) q))
    → P (decode_status p)
unfolding decode_status
decode_status-fields s rest p P w e k =
    feed _ _ (be_bytes 8 s.frequency) _ (to_signed 8 s.frequency) p P
      (get_long_long-Takes s.frequency w.frequency) e
      λ p1 g1 _ e1.
        feed _ _ (utf8_field s.mode) _ s.mode p1 P (read_utf8-Takes s.mode w.mode) e1 λ p2 g2 _ e2.
          feed _ _ (utf8_field s.dx_call) _ s.dx_call p2 P (read_utf8-Takes s.dx_call w.dx_call) e2
            λ p3 g3 _ e3.
              feed _ _ (utf8_field s.report) _ s.report p3 P (read_utf8-Takes s.report w.report) e3
                λ p4 g4 _ e4.
                  feed _ _ (utf8_field s.tx_mode) _ s.tx_mode p4 P
                    (read_utf8-Takes s.tx_mode w.tx_mode) e4
                    λ p5 g5 _ e5.
                      feed _ _ (bool_byte s.tx_enabled ∷ []) _ s.tx_enabled p5 P
                        (get_bool-Takes s.tx_enabled) e5
                        λ p6 g6 _ e6.
                          feed _ _ (bool_byte s.transmitting ∷ []) _ s.transmitting p6 P
                            (get_bool-Takes s.transmitting) e6
                            λ p7 g7 _ e7.
                              feed _ _ (bool_byte s.decoding ∷ []) _ s.decoding p7 P
                                (get_bool-Takes s.decoding) e7
                                λ p8 g8 _ e8.
                                  feed _ _ (be_bytes 4 s.rx_df) _ s.rx_df p8 P
                                    (get_uint32-Takes s.rx_df w.rx_df) e8
                                    λ p9 g9 _ e9.
                                      feed _ _ (be_bytes 4 s.tx_df) _ s.tx_df p9 P
                                        (get_uint32-Takes s.tx_df w.tx_df) e9
                                        λ p10 g10 _ e10.
                                          feed _ _ (utf8_field s.de_call) _ s.de_call p10 P
                                            (read_utf8-Takes s.de_call w.de_call) e10
                                            λ p11 g11 _ e11.
                                              feed _ _ (utf8_field s.de_grid) _ s.de_grid p11 P
                                                (read_utf8-Takes s.de_grid w.de_grid) e11
                                                λ p12 g12 _ e12.
                                                  feed _ _ (utf8_field s.dx_grid) _ s.dx_grid p12 P
                                                    (read_utf8-Takes s.dx_grid w.dx_grid) e12
                                                    λ p13 g13 _ e13.
                                                      feed _ _ (bool_byte s.tx_watchdog ∷ []) _
                                                        s.tx_watchdog p13 P
                                                        (get_bool-Takes s.tx_watchdog) e13
                                                        λ p14 g14 _ e14.
                                                          feed _ _ (utf8_field s.submode) _
                                                            s.submode p14 P
                                                            (read_utf8-Takes s.submode w.submode)
                                                            e14
                                                            λ p15 g15 _ e15.
                                                            feed _ _ (bool_byte s.fast_mode ∷ []) _
                                                            s.fast_mode p15 P
                                                            (get_bool-Takes s.fast_mode) e15
                                                            λ p16 g16 _ e16.
                                                            rw
                                                            (to_unsigned-to_signed 8 s.frequency
                                                            w.frequency)
                                                            (k p16
                                                            (g16 ∙ g15 ∙ g14 ∙ g13 ∙ g12 ∙ g11 ∙ g10
                                                            ∙ g9 ∙ g8 ∙ g7 ∙ g6 ∙ g5 ∙ g4 ∙ g3 ∙ g2
                                                            ∙ g1)
                                                            e16)
