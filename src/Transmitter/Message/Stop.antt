-- ===== src/Transmitter/Message/Stop.antt =====
-- TXlink4_Nano/TXlink4_Nano.ino: the lockout during a message.
use sdr_plugin_txlink_wsjt_x.Base.{
  ℕ, ◌+◌, ◌*◌, ◌%◌, ◌^◌, ◌≤◌, ◌<◌, ◌≡◌, ◌≢◌, ◌∙◌, refl, ap, List, [], ◌∷◌, ◌++◌, Bool, true, false,
  ◌&&◌, ◌||◌, not, pos, ltb, leb, ◌==◌, length, Bytes, arith,
}
use sdr_plugin_txlink_wsjt_x.Transmitter.{Sketch, Power, Digital, Effect, set_ftw}
use sdr_plugin_txlink_wsjt_x.Transmitter.Chip.{frequency_ftw}
use sdr_plugin_txlink_wsjt_x.Transmitter.Commands.{max_command, set_frequency_hz_x10}
use sdr_plugin_txlink_wsjt_x.Transmitter.Serial.{take_char, process_serial_in}
use sdr_plugin_txlink_wsjt_x.Transmitter.Serial.Framing.{IsPlain, nothing, character}
use sdr_plugin_txlink_wsjt_x.Transmitter.Serial.Sound.{either}
use sdr_plugin_txlink_wsjt_x.Transmitter.Safety.{
  elapsed, avg_count, is_unsafe, check_fan_state, report, send_swr, swr_measure,
}
use sdr_plugin_txlink_wsjt_x.Form.Frequency.{eq_ℤ}
use sdr_plugin_txlink_wsjt_x.Transmitter.Safety.Stable.{check_fan_state-kept, report-kept}
use sdr_plugin_txlink_wsjt_x.Transmitter.Safety.Lockout.{Kept, Locked, check_fan_state-Locked}
use sdr_plugin_txlink_wsjt_x.Transmitter.Message.{
  Moment, Message, tx_freq_x10, waiting, ended, background, end_message, is_changed, is_waiting,
  wait_for, leave_tone, on_moment, on_moments,
}

abbrev has_change : Digital → Bool
has_change d = d.ftx_tx_msg_changed || not (eq_ℤ d.ftx_tx_df d.ftx_tx_last_df)

-- Without time to the end no tone is waited for.
is_waiting-over :
    (now : ℕ) (g : Message) (s : Sketch)
    → s.digital.ftx_millis_to_end ≡ pos 0
    → is_waiting now g s ≡ false
unfolding is_waiting
is_waiting-over now g s e = rw e (
    none_left (
      ltb (elapsed (elapsed now g.t_start) (g.n * s.tones.tone_duration % 2 ^ 16))
        (wait_for g.i s.tones)))
  where
    none_left : (b : Bool) → (b && false) ≡ false
    none_left true = refl
    none_left false = refl

leave_tone-over :
    (now : ℕ) (g : Message) (s : Sketch)
    → s.digital.ftx_millis_to_end ≡ pos 0
    → s.digital.digi_tx_on ≡ false
    → 0 < elapsed now g.t_start
    → leave_tone now g s ≡ ended (end_message s)
unfolding leave_tone
leave_tone-over now g s e d late =
    let over : ltb 0 (elapsed now g.t_start) ≡ true = ground arith in rw (d, e, over) refl

-- Characters that end no command change neither the power nor the message.
take_char-Kept : (c : ℕ) (s : Sketch) → c ≢ b'{' → c ≢ b'}' → Kept s (take_char c s)
unfolding take_char
take_char-Kept c s u v =
    let e : (c == b'{') ≡ false = ground arith in
    let f : (c == b'}') ≡ false = ground arith in
    rw (e, f)
      (either (Kept s) (c == 0) same
        (either (Kept s) (ltb (length s.chr_command) max_command) same same))
  where
    same : {x : Bytes} → Kept s (record s { chr_command = x })
    same = record { power = refl; digital = refl; temperature = refl }

process_serial_in-Kept : (a : Bytes) (s : Sketch) → IsPlain a → Kept s (process_serial_in a s)
unfolding process_serial_in
process_serial_in-Kept _ s nothing = record { power = refl; digital = refl; temperature = refl }
process_serial_in-Kept _ s (character c a u v z p) =
    let first = take_char-Kept c s u v in
    let rest = process_serial_in-Kept a (take_char c s) p in
    record {
      power = rest.power ∙ first.power;
      digital = rest.digital ∙ first.digital;
      temperature = rest.temperature ∙ first.temperature;
    }

-- The state that CheckFanState meets at the end of an average.
abbrev pub measured : Moment → Sketch → Sketch
measured m s = report m.reading (record s { avg_counter = s.avg_counter + 1 })

abbrev Still : Sketch → Type 0
Still s = is_changed s ≡ false

background-Locked :
    (m : Moment) (s : Sketch)
    → avg_count ≤ s.avg_counter + 1
    → is_unsafe m.reading (measured m s) ≡ true
    → IsPlain m.received
    → Locked true s (background m s) × (is_changed s ≡ false → is_changed (background m s) ≡ false)
unfolding background swr_measure send_swr
background-Locked m s full u plain =
    let counted : Sketch = record s { avg_counter = s.avg_counter + 1 } in
    let checked : Sketch = check_fan_state m.now m.reading (measured m s) in
    let over : leb avg_count (s.avg_counter + 1) ≡ true = ground arith in
    let locked = check_fan_state-Locked m.now m.reading (measured m s) in
    let kept = process_serial_in-Kept m.received (record checked { avg_counter = 0 }) plain in
    rw over (
      (
        ap {A = Power} (λ p. p.tx_power_on) kept.power ∙ locked.0 ∙ rw u refl,
        ap {A = Digital} (λ d. d.digi_tx_on) kept.digital ∙ locked.1 ∙ rw u refl,
        ap {A = Digital} (λ d. d.ftx_millis_to_end) kept.digital ∙ locked.2 ∙ rw u refl,
      ),
      λ c.
          ap {A = Digital} has_change kept.digital
          ∙ check_fan_state-kept Still (λ s d f t n l c. c) (λ s c. c) m.now m.reading
              (measured m s)
              (report-kept Still (λ s d f t n l c. c) (λ s c. c) m.reading counted c),
    )

-- If, while a tone is waited for and no change of the message is pending, a look at the clock fills
-- the average with an unsafe reading, and what is received with it ends no command and opens none,
-- then the message ends at the next look, if that is later than the start of the message, with the
-- power off, no digital message, and the powering down of the chip as the last effect.
pub on_moments-lockout :
    (m next : Moment) (g : Message) (s : Sketch)
    → is_waiting m.now g s ≡ true
    → is_changed s ≡ false
    → avg_count ≤ s.avg_counter + 1
    → is_unsafe m.reading (measured m s) ≡ true
    → IsPlain m.received
    → 0 < elapsed next.now g.t_start
    → (t : Sketch) × (on_moments (m ∷ next ∷ []) (waiting g s) ≡ ended t
        × t.power.tx_power_on ≡ false
        × t.digital.digi_tx_on ≡ false
        × ((l : List Effect) × (ftw : ℕ) × t.effects ≡ l ++ set_ftw ftw false ∷ []))
unfolding on_moments on_moment end_message set_frequency_hz_x10
on_moments-lockout m next g s w c full u plain late =
    let b : Sketch = background m s in
    let (locked, steady) = background-Locked m s full u plain in
    let still : is_changed b ≡ false = steady c in
    let ends : on_moments (m ∷ next ∷ []) (waiting g s) ≡ ended (end_message b) =
      rw (w, still, is_waiting-over next.now g b locked.2)
        (leave_tone-over next.now g b locked.2 locked.1 late) in
    let down : (l : List Effect) × (ftw : ℕ) × (end_message b).effects
          ≡ l ++ set_ftw ftw false ∷ [] =
      (b.effects, frequency_ftw b.dds (tx_freq_x10 b), refl) in
    (end_message b, (ends, locked.0, refl, down))
