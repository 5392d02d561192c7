-- ===== src/Packet/Status/TxMessage.antt =====
-- `getDefaultTxMessage`: what the fixed offset of 24 bytes finds behind the "Fast mode" field.
use sdr_plugin_txlink_wsjt_x.Base.{
  ℕ, ◌+◌, ◌-◌, ◌%◌, ◌^◌, ◌≤◌, ◌<◌, ◌≡◌, ◌↔◌, sym, ap, ◌∙◌, [], ◌∷◌, ◌++◌, Option, none, some,
  Bool-cases, inl, inr, Bytes, pos, to_signed, arith, length, take, drop, append_assoc, take-all,
  length-drop, drop-drop, drop-append, length-append, be_bytes, length-be_bytes, ltb, if◌then◌else◌,
}
use sdr_plugin_txlink_wsjt_x.Packet.{Packet, ◌>>=◌, advance, get_default_tx_message}
use sdr_plugin_txlink_wsjt_x.Packet.Reads.{remaining, utf8_field}
use sdr_plugin_txlink_wsjt_x.Packet.Status.{StatusPacket, decode_status}
use sdr_plugin_txlink_wsjt_x.Packet.Status.Wire.{
  status_fields, FitsWire, IsText, decode_status-fields,
}

get_default_tx_message-remaining :
    (q : Packet) (rest : Bytes)
    → remaining q ≡ rest
    → 0 < length rest
    → IsText q.packet
    → get_default_tx_message q
      ≡ (if ltb (length rest) 24 then none else some (drop 24 rest, advance (length q.packet) q))
unfolding get_default_tx_message
get_default_tx_message-remaining q rest e h w =
    let n = length q.packet in
    let left : length rest ≡ n - q.index = ap length (sym e) ∙ length-drop q.index q.packet in
    let positive : to_signed 4 (n % 256 ^ 4) ≡ pos n = ground arith in
    let behind : drop (q.index + 24) q.packet ≡ drop 24 rest =
      sym (drop-drop q.index 24 q.packet) ∙ ap (drop 24) e in
    let whole : take (n - (q.index + 24)) (drop (q.index + 24) q.packet) ≡ drop 24 rest =
      take-all _ _ (omega (arith, length-drop (q.index + 24) q.packet)) ∙ behind in
    rw positive (ground (arith, whole))

-- The fields of the protocol behind "Fast mode".
abbrev pub status_tail : ℕ → ℕ → ℕ → Bytes → Bytes → Bytes
status_tail special tolerance period configuration message =
    (special ∷ [])
    ++ (be_bytes 4 tolerance
        ++ (be_bytes 4 period ++ (utf8_field configuration ++ utf8_field message)))

-- All of a status message behind its header.
abbrev pub status_message : StatusPacket → ℕ → ℕ → ℕ → Bytes → Bytes → Bytes
status_message s special tolerance period configuration message =
    status_fields s (status_tail special tolerance period configuration message)

module _ (special tolerance period : ℕ) (configuration message : Bytes) where
  -- What stands before the text of the TX message.
  tail_front : Bytes
  tail_front =
      (special ∷ [])
      ++ (be_bytes 4 tolerance
          ++ (be_bytes 4 period ++ (utf8_field configuration ++ be_bytes 4 (length message))))

  length-tail_front : length tail_front ≡ 17 + length configuration
  unfolding tail_front
  length-tail_front = ground (
    arith,
    length-append (be_bytes 4 tolerance)
        (be_bytes 4 period ++ (utf8_field configuration ++ be_bytes 4 (length message))),
    length-append (be_bytes 4 period) (utf8_field configuration ++ be_bytes 4 (length message)),
    length-append (utf8_field configuration) (be_bytes 4 (length message)),
    length-append (be_bytes 4 (length configuration)) configuration,
    length-be_bytes 4 tolerance,
    length-be_bytes 4 period,
    length-be_bytes 4 (length configuration),
    length-be_bytes 4 (length message),
  )

  tail_front-append :
      status_tail special tolerance period configuration message ≡ tail_front ++ message
  unfolding tail_front
  tail_front-append = simp append_assoc

  length-status_tail :
      length (status_tail special tolerance period configuration message)
      ≡ 17 + length configuration + length message
  length-status_tail =
      ap length tail_front-append
      ∙ length-append tail_front message
      ∙ omega (arith, length-tail_front)

  drop-status_tail :
      length configuration ≡ 7
      → drop 24 (status_tail special tolerance period configuration message) ≡ message
  drop-status_tail h =
      let exact : length tail_front ≡ 24 = omega (arith, length-tail_front) in
      ap (drop 24) tail_front-append
      ∙ ap (λ n. drop n (tail_front ++ message)) (sym exact)
      ∙ drop-append tail_front message

  drop-status_tail_ne :
      drop 24 (status_tail special tolerance period configuration message) ≡ message
      → 24 ≤ 17 + length configuration + length message
      → length configuration ≡ 7
  drop-status_tail_ne e h = omega (
    arith,
    ap length e,
    length-drop 24 (status_tail special tolerance period configuration message),
    length-status_tail,
  )

  module _ (s : StatusPacket) (p : Packet) (w : FitsWire s) (small : IsText p.packet)
      (e : remaining p ≡ status_message s special tolerance period configuration message) where
    decode_status-tail :
        (P : Option (StatusPacket × Packet) → Type 0)
        → ((q : Packet)
            → P (
                if ltb (17 + length configuration + length message) 24
                then none
                else some (
                  record s {
                    default_tx_message =
                        drop 24 (status_tail special tolerance period configuration message);
                  },
                  q,
                )))
        → P (decode_status p)
    decode_status-tail P k = decode_status-fields s _ p P w e λ q same left.
        rw
          (
            get_default_tx_message-remaining q _ left (omega (arith, length-status_tail))
                (rw same small),
            ◌>>=◌,
          )
          (rw length-status_tail
            (elim (Bool-cases (ltb (17 + length configuration + length message) 24)) [
              | inl t ↦ rw t (rw t at (k (advance (length q.packet) q)))
              | inr t ↦ rw t (rw t at (k (advance (length q.packet) q)))
            ]))

    -- With a configuration name of seven bytes, as in "Default", the message is read back whole.
    pub decode_status-status_message :
        length configuration ≡ 7
        → (q : Packet) × (decode_status p ≡ some (record s { default_tx_message = message }, q))
    decode_status-status_message h =
        decode_status-tail
          (λ o. (q : Packet) × (o ≡ some (record s { default_tx_message = message }, q)))
          λ q. (q, rw (drop-status_tail h) (ground (arith, h)))

    -- If a status message with fields that fit their types is read at all, the default TX message
    -- that is read is the one that was written exactly if the configuration name has seven bytes.
    pub default_tx_message_iff :
        (t : StatusPacket) (q : Packet)
        → decode_status p ≡ some (t, q)
        → (t.default_tx_message ≡ message) ↔ (length configuration ≡ 7)
    default_tx_message_iff t q =
        decode_status-tail
          (λ o. o ≡ some (t, q) → (t.default_tx_message ≡ message) ↔ (length configuration ≡ 7))
          λ q' f.
            let enough : 24 ≤ 17 + length configuration + length message = ground arith in
            let read : t.default_tx_message
                ≡ drop 24 (status_tail special tolerance period configuration message) =
              ground arith in
            ((λ g. drop-status_tail_ne (sym read ∙ g) enough), (λ h. read ∙ drop-status_tail h))

    -- A status message whose tail has fewer than 24 bytes makes the string constructor run backwards.
    pub decode_status_short :
        17 + length configuration + length message < 24 → decode_status p ≡ none
    decode_status_short h = decode_status-tail (λ o. o ≡ none) λ q. ground arith
