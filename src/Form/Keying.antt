-- ===== src/Form/Keying.antt =====
-- The commands that ProcessUDPEvent writes for a transmission of WSJT-X, in their order.
use sdr_plugin_txlink_wsjt_x.Base.{
  ℕ, ◌≡◌, refl, sym, ap, ◌∙◌, inl, inr, List, [], ◌∷◌, ◌++◌, append_assoc, Bool, true, false, ◌||◌,
  Bytes, arith, Bool-cases, codes, ltb, str_eq, if◌then◌else◌,
}
use sdr_plugin_txlink_wsjt_x.Encode.{ft8, ft4}
use sdr_plugin_txlink_wsjt_x.Settings.{split_ft8}
use sdr_plugin_txlink_wsjt_x.Udp.{Globals}
use sdr_plugin_txlink_wsjt_x.Form.{Device, Form, signed_to_string, command}
use sdr_plugin_txlink_wsjt_x.Form.Frequency.{
  eq_ℤ, is_ft8, take_wsjtx_freq, set_data_radio, setup_data_mode, annotate,
}
use sdr_plugin_txlink_wsjt_x.Form.UdpEvent.{
  mode_command, time_to_end, take_frequency, write_transmission, enter_transmission, prepare,
  take_halt, write_key, serve_arduino,
}

-- WSJT-X asks for no other frequency than the one that is set.
abbrev pub IsSettled : Form → Type 0
IsSettled f = f.globals.new_frequency ≡ 0 × eq_ℤ f.current_tx_freq f.current_wsjtx_freq ≡ true

abbrev pub is_digital : Bytes → Bool
is_digital mode = str_eq mode ft4 || str_eq mode ft8

-- A set frequency is left, and nothing is written for it.
take_wsjtx_freq_settled :
    (d : Device) (f : Form)
    → eq_ℤ f.current_tx_freq f.current_wsjtx_freq ≡ true
    → take_wsjtx_freq d f ≡ record f { split_mode = split_ft8 }
unfolding take_wsjtx_freq
take_wsjtx_freq_settled d f e = rw e refl

take_frequency_settled :
    (d : Device) (f : Form) → f.globals.new_frequency ≡ 0 → take_frequency d f ≡ f
unfolding take_frequency
take_frequency_settled d f e =
    let no : ltb 0 f.globals.new_frequency ≡ false = ground (arith, e) in rw no refl

write_key-written :
    (d : Device) (x : Form × Bytes)
    → is_ft8 x.0.split_mode ≡ true
    → is_digital x.0.digi_tx_mode_str ≡ true
    → (write_key d x).serial.written ≡ x.0.serial.written ++ x.1 ∷ []
unfolding write_key
write_key-written d x m t = rw (m, t) refl

-- All the commands of one event: those of a transmission, and the one that keys it or stops it.
abbrev pub commands_with : Bool → ℕ → Globals → List Bytes
commands_with tx now g =
    (if tx
      then mode_command g
        ∷ command b'Y' (signed_to_string g.tx_df)
        ∷ command b'Z' g.tx_symbols
        ∷ command b'W' (signed_to_string (time_to_end now g))
        ∷ []
      else [])
    ++ (if g.udp_halt_tx_event then codes "{X0}{W0}" else if tx then codes "{X1}" else codes "{X0}")
      ∷ []

abbrev pub commands_at : ℕ → Globals → List Bytes
commands_at now g = commands_with g.tx_flg now g

append_five {ℓ} :
    {A : Type ℓ} (l : List A) (a b c e k : A)
    → l ++ a ∷ [] ++ b ∷ [] ++ c ∷ [] ++ e ∷ [] ++ k ∷ [] ≡ l ++ a ∷ b ∷ c ∷ e ∷ k ∷ []
append_five l a b c e k = simp (append_assoc) refl

take_halt_keeps :
    (x : Form × Bytes)
    → (take_halt x).0.serial ≡ x.0.serial
      × (take_halt x).0.split_mode ≡ x.0.split_mode
      × (take_halt x).0.digi_tx_mode_str ≡ x.0.digi_tx_mode_str
      × (take_halt x).1 ≡ (if x.0.globals.udp_halt_tx_event then codes "{X0}{W0}" else x.1)
unfolding take_halt
take_halt_keeps x = elim (Bool-cases x.0.globals.udp_halt_tx_event) [
  | inl e ↦ rw e (refl, refl, refl, refl)
  | inr e ↦ rw e (refl, refl, refl, refl)
]

-- What a prepared event has written, and how it ends.
abbrev pub IsPrepared : ℕ → Form → Form × Bytes → Type 0
IsPrepared now f x =
    x.0.serial.written ++ (if f.globals.udp_halt_tx_event then codes "{X0}{W0}" else x.1) ∷ []
      ≡ f.serial.written ++ commands_at now f.globals
    × is_ft8 x.0.split_mode ≡ true
    × is_digital x.0.digi_tx_mode_str ≡ true
    × x.0.globals.udp_halt_tx_event ≡ f.globals.udp_halt_tx_event

module _ (d : Device) (now : ℕ) (f : Form) (settled : IsSettled f)
    (mode : is_ft8 f.split_mode ≡ true) (digital : is_digital f.digi_tx_mode_str ≡ true)
    (named : is_digital f.globals.tx_mode_str ≡ true) where
  prepare-IsPrepared : IsPrepared now f (prepare d now f)
  unfolding prepare enter_transmission write_transmission setup_data_mode set_data_radio annotate
  prepare-IsPrepared = by_flag f.globals.tx_flg refl
    where
      sent : Form
      sent = record (write_transmission d now f) { digi_tx_mode_str = f.globals.tx_mode_str }

      by_flag :
          (b : Bool)
          → f.globals.tx_flg ≡ b
          → let x : Form × Bytes =
              if b
              then (enter_transmission d (write_transmission d now f), codes "{X1}")
              else (f, codes "{X0}") in
            IsPrepared now f x
      by_flag true e = rw (take_wsjtx_freq_settled d sent (settled.1)) (
        append_five f.serial.written (mode_command f.globals)
              (command b'Y' (signed_to_string f.globals.tx_df)) (command b'Z' f.globals.tx_symbols)
              (command b'W' (signed_to_string (time_to_end now f.globals)))
              (if f.globals.udp_halt_tx_event then codes "{X0}{W0}" else codes "{X1}")
            ∙ ap (λ tx. f.serial.written ++ commands_with tx now f.globals) (sym e),
        refl,
        named,
        refl,
      )
      by_flag false e = (
        ap (λ tx. f.serial.written ++ commands_with tx now f.globals) (sym e),
        mode,
        digital,
        refl,
      )

  -- With no new frequency and the one of WSJT-X set, the form in data mode and both modes FT8 or
  -- FT4, an event writes exactly `commands_at`: mode, offset, tones and time of a transmission if
  -- there is one, then the key, the stop, or the forced stop if it is raised.
  pub serve_arduino-commands_at :
      (serve_arduino d now f).serial.written ≡ f.serial.written ++ commands_at now f.globals
  unfolding serve_arduino
  serve_arduino-commands_at =
      let p = prepare d now f in
      let (wrote, in_mode, is_known, same_halt) = prepare-IsPrepared in
      let (s, m, t, c) = take_halt_keeps p in
      rw (take_frequency_settled d f (settled.0)) (
        write_key-written d (take_halt p) (ap is_ft8 m ∙ in_mode) (ap is_digital t ∙ is_known)
        ∙ (λ i. (s i).written ++ c i ∷ [])
        ∙ ap (λ h. p.0.serial.written ++ (if h then codes "{X0}{W0}" else p.1) ∷ []) same_halt
        ∙ wrote)
