-- ===== src/Udp/Update.antt =====
-- What a status message does to the globals: the message and its tones, the frequency, the halt.
use sdr_plugin_txlink_wsjt_x.Base.{
  ◌≡◌, ◌≢◌, ◌↔◌, refl, sym, ◌∙◌, ◌⊎◌, inl, inr, [], ◌∷◌, true, false, Bytes, codes, str_eq,
  str_eq_iff, str_eq_refl, str_eq_ne, arith, Bool-cases, ◌==◌, if◌then◌else◌, length,
}
use sdr_plugin_txlink_wsjt_x.Packet.Status.{StatusPacket}
use sdr_plugin_txlink_wsjt_x.Encode.{
  Paths, ChildRun, is_nil, remove_trailing_spaces, encode_message,
}
use sdr_plugin_txlink_wsjt_x.Encode.{ft8, ft4}
use sdr_plugin_txlink_wsjt_x.Encode.Symbols.{encode_message-length-ft8}
use sdr_plugin_txlink_wsjt_x.Udp.{
  Globals, message_of, update_radio, message_changed, update_message, update_status,
}

message_of_ne : (s : StatusPacket) → is_nil (message_of s) ≡ false
message_of_ne s = go (remove_trailing_spaces s.default_tx_message)
  where
    go : (m : Bytes) → is_nil (if is_nil m then codes "CQ G4AHN IO91" else m) ≡ false
    go [] = refl
    go (c ∷ m) = refl

message_changed_ne :
    (s : StatusPacket) (g : Globals)
    → g.last_tx_msg ≢ message_of s
    → message_changed (message_of s) g ≡ true
message_changed_ne s g h =
    let other = str_eq_ne g.last_tx_msg (message_of s) h in ground (arith, other)

message_changed_eq :
    (s : StatusPacket) (g : Globals)
    → g.last_tx_msg ≡ message_of s
    → message_changed (message_of s) g ≡ false
message_changed_eq s g h = rw (h, message_of_ne s, str_eq_refl (message_of s))

module _ (paths : Paths) (child : Bytes → ChildRun) where
  update_message_new :
      (msg : Bytes) (g : Globals)
      → message_changed msg g ≡ true
      → update_message paths child msg g ≡ record g {
        tx_symbols = (encode_message paths child g.tx_mode_str msg).symbols;
        str_decode_msg = (encode_message paths child g.tx_mode_str msg).decode_msg;
        last_tx_msg = msg;
      }
  unfolding update_message
  update_message_new msg g h = rw h

  update_message_same :
      (msg : Bytes) (g : Globals)
      → message_changed msg g ≡ false
      → update_message paths child msg g ≡ record g { last_tx_msg = msg }
  unfolding update_message
  update_message_same msg g h = rw h

  -- A status message with another text brings the tones of that text, in the mode of the message.
  pub update_status_new :
      (s : StatusPacket) (g : Globals)
      → g.last_tx_msg ≢ message_of s
      → let g' = update_status paths child s g in
        let e = encode_message paths child s.mode (message_of s) in
        (g'.tx_symbols ≡ e.symbols)
        × (g'.str_decode_msg ≡ e.decode_msg)
        × (g'.last_tx_msg ≡ message_of s)
        × (g'.tx_mode_str ≡ s.mode)
        × (g'.udp_event ≡ true)
  unfolding update_status
  update_status_new s g h =
      rw (update_message_new (message_of s) (update_radio s g) (message_changed_ne s g h))
        (refl, refl, refl, refl, refl)

  -- With the text of the message before, the tones stay, whatever the mode of the message is.
  pub update_status_same :
      (s : StatusPacket) (g : Globals)
      → g.last_tx_msg ≡ message_of s
      → let g' = update_status paths child s g in
        (g'.tx_symbols ≡ g.tx_symbols)
        × (g'.str_decode_msg ≡ g.str_decode_msg)
        × (g'.last_tx_msg ≡ g.last_tx_msg)
        × (g'.tx_mode_str ≡ s.mode)
        × (g'.udp_event ≡ true)
  unfolding update_status
  update_status_same s g h =
      rw (update_message_same (message_of s) (update_radio s g) (message_changed_eq s g h))
        (refl, refl, sym h, refl, refl)

  -- The tones in hand are those of the last message, in some mode.
  pub record HasTones (g : Globals) : Type 0 where
    pub tone_mode : Bytes
    pub tones : g.tx_symbols ≡ (encode_message paths child tone_mode g.last_tx_msg).symbols
    pub decoded : g.str_decode_msg ≡ (encode_message paths child tone_mode g.last_tx_msg).decode_msg

  -- If the tones and the decoded text in hand are those that EncodeMessage gives for the last
  -- message in some mode, then so they are behind any status message.
  pub update_status-HasTones :
      (s : StatusPacket) (g : Globals) → HasTones g → HasTones (update_status paths child s g)
  update_status-HasTones s g v = elim (Bool-cases (str_eq g.last_tx_msg (message_of s))) [
    | inl e ↦
        let (a, b, c, d, f) = update_status_same s g ((str_eq_iff _ _).0 e) in
        record { tone_mode = v.tone_mode; tones = rw (a, c) v.tones; decoded = rw (b, c) v.decoded }
    | inr e ↦
        let other : g.last_tx_msg ≢ message_of s =
          λ h. ground (arith, str_eq_iff g.last_tx_msg (message_of s)) in
        let (a, b, c, d, f) = update_status_new s g other in
        record { tone_mode = s.mode; tones = rw (a, c); decoded = rw (b, c) }
  ]

  -- If the tones in hand are those of the last message in FT8, a status message in FT4 with the
  -- same text leaves the mode FT4 with 79 tones.
  pub update_status_stale :
      (s : StatusPacket) (g : Globals)
      → g.tx_symbols ≡ (encode_message paths child ft8 g.last_tx_msg).symbols
      → s.mode ≡ ft4
      → g.last_tx_msg ≡ message_of s
      → let g' = update_status paths child s g in
        (g'.tx_mode_str ≡ ft4) × (length g'.tx_symbols ≡ 79)
  update_status_stale s g t m h =
      let (a, b, c, d, f) = update_status_same s g h in
      (d ∙ m, rw (a, t) (encode_message-length-ft8 paths child g.last_tx_msg))

-- The frequency and the halt, which the text of the message does not touch.
abbrev pub SameRadio : Globals → Globals → Type 0
SameRadio g h =
    (g.cur_frequency ≡ h.cur_frequency)
    × (g.new_frequency ≡ h.new_frequency)
    × (g.udp_halt_tx_event ≡ h.udp_halt_tx_event)
    × (g.tx_flg ≡ h.tx_flg)

module _ (paths : Paths) (child : Bytes → ChildRun) where
  update_status-SameRadio :
      (s : StatusPacket) (g : Globals)
      → SameRadio (update_status paths child s g) (update_radio s g)
  unfolding update_status
  update_status-SameRadio s g =
      elim (Bool-cases (message_changed (message_of s) (update_radio s g))) [
        | inl e ↦
            rw (update_message_new paths child (message_of s) (update_radio s g) e)
              (refl, refl, refl, refl)
        | inr e ↦
            rw (update_message_same paths child (message_of s) (update_radio s g) e)
              (refl, refl, refl, refl)
      ]

  -- If the last new frequency was taken (is 0), a status message makes its frequency the current
  -- one, and posts it if it is another; if not, both frequencies stay, so that a later message can
  -- post it.
  pub update_status-frequency :
      (s : StatusPacket) (g : Globals)
      → let g' = update_status paths child s g in
        ((g.new_frequency ≡ 0)
          × (g'.cur_frequency ≡ s.frequency)
          × (g'.new_frequency ≡ (if s.frequency == g.cur_frequency then 0 else s.frequency)))
        ⊎ ((g.new_frequency ≢ 0)
            × (g'.cur_frequency ≡ g.cur_frequency)
            × (g'.new_frequency ≡ g.new_frequency))
  unfolding update_radio
  update_status-frequency s g =
      let (a, b, c, d) = update_status-SameRadio s g in
      rw (a, b)
        (elim (Bool-cases (g.new_frequency == 0)) [
          | inl z ↦ inl (ground (arith, z), ground (arith, z), ground (arith, z))
          | inr z ↦ inr ((λ h. ground (arith, z, h)), ground (arith, z), ground (arith, z))
        ])

  -- Behind a status message the stop is raised exactly if it was raised before, or the message ends
  -- a transmission with TX disabled; the transmit flag is that of the message.
  pub update_status-halt :
      (s : StatusPacket) (g : Globals)
      → let g' = update_status paths child s g in
        ((g'.udp_halt_tx_event ≡ true) ↔ (
          (g.udp_halt_tx_event ≡ true)
          ⊎ ((g.tx_flg ≡ true) × (s.transmitting ≡ false) × (s.tx_enabled ≡ false))))
        × (g'.tx_flg ≡ s.transmitting)
  unfolding update_radio
  update_status-halt s g =
      let (a, b, c, d) = update_status-SameRadio s g in
      rw (c, d) (((λ h. ground arith), (λ h. ground arith)), refl)
