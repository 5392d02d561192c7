-- ===== src/Packet/Header.antt =====
-- The header and the decode message of WSJT-X, read back from the wire.
use sdr_plugin_txlink_wsjt_x.Base.{
  ℕ, ◌*◌, ◌^◌, ◌<◌, ◌≡◌, refl, ◌∙◌, [], ◌∷◌, ◌++◌, Option, some, Bytes, to_signed, length, be_bytes,
}
use sdr_plugin_txlink_wsjt_x.Packet.{Packet, new_packet, read_header, decode_header}
use sdr_plugin_txlink_wsjt_x.Packet.Messages.{DecodePacket, decode_decode}
use sdr_plugin_txlink_wsjt_x.Packet.Reads.{
  remaining, feed, bool_byte, utf8_field, get_uint32-Takes, get_int32-Takes, get_double-Takes,
  get_bool-Takes, read_utf8-Takes,
}

abbrev pub header_bytes : ℕ → ℕ → ℕ → Bytes → Bytes → Bytes
header_bytes magic schema type id rest =
    be_bytes 4 magic ++ (be_bytes 4 schema ++ (be_bytes 4 type ++ (utf8_field id ++ rest)))

read_header-header_bytes :
    (magic schema type : ℕ) (id rest : Bytes) (p : Packet)
    → magic < 256 ^ 4
    → schema < 256 ^ 4
    → type < 256 ^ 4
    → 2 * length id < 256 ^ 4
    → remaining p ≡ header_bytes magic schema type id rest
    → (q : Packet) × (read_header p ≡ some ((magic, schema, type, id), q))
      × (q.packet ≡ p.packet)
      × (remaining q ≡ rest)
unfolding read_header
read_header-header_bytes magic schema type id rest p hm hs ht hi e =
    let P : Option ((ℕ × ℕ × ℕ × Bytes) × Packet) → Type 0 = λ o.
      (q : Packet) × (o ≡ some ((magic, schema, type, id), q))
      × (q.packet ≡ p.packet)
      × (remaining q ≡ rest) in
    feed _ _ (be_bytes 4 magic) _ magic p P (get_uint32-Takes magic hm) e λ p1 g1 _ e1.
      feed _ _ (be_bytes 4 schema) _ schema p1 P (get_uint32-Takes schema hs) e1 λ p2 g2 _ e2.
        feed _ _ (be_bytes 4 type) _ type p2 P (get_uint32-Takes type ht) e2 λ p3 g3 _ e3.
          feed _ _ (utf8_field id) _ id p3 P (read_utf8-Takes id hi) e3
            λ p4 g4 _ e4. (p4, refl, g4 ∙ g3 ∙ g2 ∙ g1, e4)

-- The header of a datagram is read back field by field, and the index is left behind it.
pub decode_header-header_bytes :
    (magic schema type : ℕ) (id rest : Bytes)
    → magic < 256 ^ 4
    → schema < 256 ^ 4
    → type < 256 ^ 4
    → 2 * length id < 256 ^ 4
    → (q : Packet) × (decode_header (new_packet (header_bytes magic schema type id rest) 0)
        ≡ some q)
      × (q.magic_number ≡ magic)
      × (q.schema_version ≡ schema)
      × (q.packet_type ≡ type)
      × (q.client_id ≡ id)
      × (q.packet ≡ header_bytes magic schema type id rest)
      × (remaining q ≡ rest)
unfolding decode_header
decode_header-header_bytes magic schema type id rest hm hs ht hi =
    let start : Packet = new_packet (header_bytes magic schema type id rest) 0 in
    let (q, read, same, left) =
      read_header-header_bytes magic schema type id rest start hm hs ht hi refl in
    (
      record q {
        magic_number = magic;
        schema_version = schema;
        packet_type = type;
        client_id = id;
      },
      rw (read, decode_header),
      refl,
      refl,
      refl,
      refl,
      same,
      left,
    )

-- The fields of a decode message (NetworkMessage.hpp, "Decode"), with `snr` the pattern of its
-- signed integer.
abbrev pub decode_fields : DecodePacket → ℕ → Bytes → Bytes
decode_fields d snr rest =
    (bool_byte d.is_new ∷ [])
    ++ (be_bytes 4 d.time
        ++ (be_bytes 4 snr
            ++ (be_bytes 8 d.delta_time
                ++ (be_bytes 4 d.delta_frequency
                    ++ (utf8_field d.mode
                        ++ (utf8_field d.message
                            ++ ((bool_byte d.low_confidence ∷ [])
                                ++ ((bool_byte d.off_air ∷ []) ++ rest))))))))

pub record FitsDecode (d : DecodePacket) (snr : ℕ) : Type 0 where
  pub time : d.time < 256 ^ 4
  pub snr_pattern : snr < 256 ^ 4
  pub snr_value : d.snr ≡ to_signed 4 snr
  pub delta_time : d.delta_time < 256 ^ 8
  pub delta_frequency : d.delta_frequency < 256 ^ 4
  pub mode : 2 * length d.mode < 256 ^ 4
  pub message : 2 * length d.message < 256 ^ 4

-- A decode message whose fields fit their types is read back whole, and what is left to be read is
-- what stood behind it.
pub decode_decode-decode_fields :
    (d : DecodePacket) (snr : ℕ) (rest : Bytes) (p : Packet)
    → FitsDecode d snr
    → remaining p ≡ decode_fields d snr rest
    → (q : Packet) × (decode_decode p ≡ some (d, q)) × (remaining q ≡ rest)
unfolding decode_decode
decode_decode-decode_fields d snr rest p w e =
    let P : Option (DecodePacket × Packet) → Type 0 =
      λ o. (q : Packet) × (o ≡ some (d, q)) × (remaining q ≡ rest) in
    feed _ _ (bool_byte d.is_new ∷ []) _ d.is_new p P (get_bool-Takes d.is_new) e λ p1 _ _ e1.
      feed _ _ (be_bytes 4 d.time) _ d.time p1 P (get_uint32-Takes d.time w.time) e1 λ p2 _ _ e2.
        feed _ _ (be_bytes 4 snr) _ (to_signed 4 snr) p2 P (get_int32-Takes snr w.snr_pattern) e2
          λ p3 _ _ e3.
            feed _ _ (be_bytes 8 d.delta_time) _ d.delta_time p3 P
              (get_double-Takes d.delta_time w.delta_time) e3
              λ p4 _ _ e4.
                feed _ _ (be_bytes 4 d.delta_frequency) _ d.delta_frequency p4 P
                  (get_uint32-Takes d.delta_frequency w.delta_frequency) e4
                  λ p5 _ _ e5.
                    feed _ _ (utf8_field d.mode) _ d.mode p5 P (read_utf8-Takes d.mode w.mode) e5
                      λ p6 _ _ e6.
                        feed _ _ (utf8_field d.message) _ d.message p6 P
                          (read_utf8-Takes d.message w.message) e6
                          λ p7 _ _ e7.
                            feed _ _ (bool_byte d.low_confidence ∷ []) _ d.low_confidence p7 P
                              (get_bool-Takes d.low_confidence) e7
                              λ p8 _ _ e8.
                                feed _ _ (bool_byte d.off_air ∷ []) _ d.off_air p8 P
                                  (get_bool-Takes d.off_air) e8
                                  λ p9 _ _ e9. (p9, rw (← w.snr_value), e9)
