-- ===== src/Panel/Answer.antt =====
-- The commands that the Arduino is sent when it reports "~TX".
use sdr_plugin_txlink_wsjt_x.Base.{
  ℕ, ◌≡◌, refl, ap, ◌∙◌, List, [], ◌∷◌, ◌++◌, append_assoc, some, true, false, Bytes, ℤ, codes,
}
use sdr_plugin_txlink_wsjt_x.Queue.{push}
use sdr_plugin_txlink_wsjt_x.Settings.{
  value, stoi, or_default, get_valid_fan_hold, get_valid_fan_low_pwm, get_valid_ft8_tx_delay,
  get_valid_temp_limit,
}
use sdr_plugin_txlink_wsjt_x.Form.{Device, Form, command}
use sdr_plugin_txlink_wsjt_x.Form.Frequency.{
  eq_ℤ, frequency_command, write_frequency, send_tx_freq, send_rx_freq,
}
use sdr_plugin_txlink_wsjt_x.Panel.{
  Panel, on_form, send_setting, send_tx_level, send_pa_level, send_pa_state, send_fan_hold,
  send_fan_low_pwm, send_ft8_tx_delay, send_freq_cal_to_tx, send_levels, send_limits,
  send_last_limit, init_tx,
}
use sdr_plugin_txlink_wsjt_x.Panel.Queued.{StaysOpen}

-- A form behind one more write to an open port.
abbrev pub wrote : Bytes → Form → Form
wrote text f = record f {
  serial = record { connected = true; written = f.serial.written ++ text ∷ [] };
}

-- The port is open, and the form neither tracks VRX 0 nor has a frequency that is not yet sent.
pub record IsQuiet (f : Form) : Type 0 where
  pub connected : f.serial.connected ≡ true
  pub fixed : f.track_freq ≡ false
  pub settled : eq_ℤ f.current_tx_freq f.last_tx_freq ≡ true

module _ (d : Device) (open_port : StaysOpen d) where
  send_setting-wrote :
      (letter : ℕ) (text : Bytes) (f : Form)
      → f.serial.connected ≡ true
      → send_setting d letter text f ≡ wrote (command letter text) f
  send_setting-wrote letter text f c =
      let still = open_port f.serial.written (command letter text) in rw (c, still) refl

  levels-wrote :
      (l p b r : Bytes) (f : Form)
      → f.serial.connected ≡ true
      → send_fan_low_pwm d r
          (send_fan_hold d b (send_pa_state d false (send_pa_level d p (send_tx_level d l f))))
        ≡ wrote (command b'R' r) (
            wrote (command b'B' b) (
              wrote (command b'Q' (codes "0")) (wrote (command b'P' p) (wrote (command b'L' l) f))))
  levels-wrote l p b r f c =
      let f1 = wrote (command b'L' l) f in
      let f2 = wrote (command b'P' p) f1 in
      let f3 = wrote (command b'Q' (codes "0")) f2 in
      let f4 = wrote (command b'B' b) f3 in
      ap
        (λ g.
          send_fan_low_pwm d r (send_fan_hold d b (send_pa_state d false (send_pa_level d p g))))
        (send_setting-wrote b'L' l f c)
      ∙ ap (λ g. send_fan_low_pwm d r (send_fan_hold d b (send_pa_state d false g)))
          (send_setting-wrote b'P' p f1 refl)
      ∙ ap (λ g. send_fan_low_pwm d r (send_fan_hold d b g))
          (send_setting-wrote b'Q' (codes "0") f2 refl)
      ∙ ap (send_fan_low_pwm d r) (send_setting-wrote b'B' b f3 refl)
      ∙ send_setting-wrote b'R' r f4 refl

  write_frequency-wrote :
      (f : Form)
      → f.serial.connected ≡ true
      → write_frequency d f
        ≡ wrote
            (frequency_command f)
            (record f { rtty_msg_out_q = push f.rtty_msg_out_q (frequency_command f) })
  unfolding write_frequency
  write_frequency-wrote f c =
      let still = open_port f.serial.written (frequency_command f) in rw (c, still) refl

  send_rx_freq_quiet :
      (f : Form)
      → f.track_freq ≡ false
      → eq_ℤ f.current_tx_freq f.last_tx_freq ≡ true
      → send_rx_freq d false f ≡ f
  unfolding send_rx_freq send_tx_freq
  send_rx_freq_quiet f t s = rw (t, s) refl

  cal-wrote :
      (tmp : Bytes) (f : Form)
      → IsQuiet f
      → send_rx_freq d false (send_setting d b'C' tmp (write_frequency d f))
        ≡ wrote (command b'C' tmp) (
            wrote
              (frequency_command f)
              (record f { rtty_msg_out_q = push f.rtty_msg_out_q (frequency_command f) }))
  cal-wrote tmp f q =
      let g = record f { rtty_msg_out_q = push f.rtty_msg_out_q (frequency_command f) } in
      ap (λ h. send_rx_freq d false (send_setting d b'C' tmp h))
        (write_frequency-wrote f q.connected)
      ∙ ap (send_rx_freq d false) (send_setting-wrote b'C' tmp (wrote (frequency_command f) g) refl)
      ∙ send_rx_freq_quiet (wrote (command b'C' tmp) (wrote (frequency_command f) g)) q.fixed
          q.settled

  -- The commands of the answer, in their order.
  abbrev pub init_commands : Panel → Bytes → Bytes → List Bytes
  init_commands p delay limit =
      frequency_command p.desk.form
      ∷ command b'C' (or_default (codes "0") p.stored.freq_cal)
      ∷ command b'L' p.tx_level
      ∷ command b'P' p.pa_level
      ∷ command b'Q' (codes "0")
      ∷ command b'B' (get_valid_fan_hold p.stored.fan_hold)
      ∷ command b'R' (get_valid_fan_low_pwm p.stored.fan_low_pwm)
      ∷ command b'V' delay
      ∷ command b'T' limit
      ∷ []

  append_nine {ℓ} :
      {A : Type ℓ} (w : List A) (a b c e f g h i j : A)
      → w ++ a ∷ [] ++ b ∷ [] ++ c ∷ [] ++ e ∷ [] ++ f ∷ [] ++ g ∷ [] ++ h ∷ [] ++ i ∷ [] ++ j ∷ []
        ≡ w ++ a ∷ b ∷ c ∷ e ∷ f ∷ g ∷ h ∷ i ∷ j ∷ []
  append_nine w a b c e f g h i j = simp (append_assoc) refl

  -- The form and the panel behind all that is sent before the levels.
  abbrev cal_form : Panel → Form
  cal_form p = wrote (command b'C' (or_default (codes "0") p.stored.freq_cal)) (
      wrote (frequency_command p.desk.form) (record (p.desk.form) {
        rtty_msg_out_q = push p.desk.form.rtty_msg_out_q (frequency_command p.desk.form);
      }))

  abbrev cal_panel : Panel → Form → Panel
  cal_panel p f = record p {
    desk = record (p.desk) { form = f };
    stored = record (p.stored) { freq_cal = or_default (codes "0") p.stored.freq_cal };
  }

  send_freq_cal-panel :
      (p : Panel) (v : ℤ)
      → IsQuiet p.desk.form
      → stoi (or_default (codes "0") p.stored.freq_cal) ≡ value v
      → send_freq_cal_to_tx d (on_form (write_frequency d) p) ≡ cal_panel p (cal_form p)
  unfolding send_freq_cal_to_tx
  send_freq_cal-panel p v q e =
      rw (e, send_freq_cal_to_tx)
        (ap (cal_panel p) (cal-wrote (or_default (codes "0") p.stored.freq_cal) p.desk.form q))

  levels-panel :
      (c : Panel)
      → c.desk.form.serial.connected ≡ true
      → (send_levels d c).desk.form
        ≡ wrote (command b'R' (get_valid_fan_low_pwm c.stored.fan_low_pwm)) (
            wrote (command b'B' (get_valid_fan_hold c.stored.fan_hold)) (
              wrote
                (command b'Q' (codes "0"))
                (wrote (command b'P' c.pa_level) (wrote (command b'L' c.tx_level) c.desk.form))))
  unfolding send_levels
  levels-panel c h =
      levels-wrote c.tx_level c.pa_level (get_valid_fan_hold c.stored.fan_hold)
        (get_valid_fan_low_pwm c.stored.fan_low_pwm) c.desk.form h

  levels-connected :
      (c : Panel)
      → c.desk.form.serial.connected ≡ true
      → (send_levels d c).desk.form.serial.connected ≡ true
  levels-connected c h = ap (λ (f : Form). f.serial.connected) (levels-panel c h)

  last_limit-written :
      (q : Panel) (limit : Bytes)
      → q.desk.form.serial.connected ≡ true
      → get_valid_temp_limit q.stored.temp_limit ≡ some limit
      → ((send_last_limit d q).0.desk.form.serial.written
          ≡ q.desk.form.serial.written ++ command b'T' limit ∷ [])
        × ((send_last_limit d q).1 ≡ false)
  unfolding send_last_limit
  last_limit-written q limit c e =
      rw (e, send_last_limit)
        (ap (λ (f : Form). f.serial.written) (send_setting-wrote b'T' limit q.desk.form c), refl)

  limits-written :
      (q : Panel) (delay limit : Bytes)
      → q.desk.form.serial.connected ≡ true
      → get_valid_ft8_tx_delay q.stored.ft8_tx_delay ≡ some delay
      → get_valid_temp_limit q.stored.temp_limit ≡ some limit
      → ((send_limits d q).0.desk.form.serial.written
          ≡ q.desk.form.serial.written ++ command b'V' delay ∷ [] ++ command b'T' limit ∷ [])
        × ((send_limits d q).1 ≡ false)
  unfolding send_limits
  limits-written q delay limit c hd hl =
      let sent = send_setting-wrote b'V' delay q.desk.form c in
      let (written, returned) =
        last_limit-written
          (record (on_form (send_ft8_tx_delay d delay) q) {
            stored = record (q.stored) { ft8_tx_delay = delay };
          })
          limit (ap (λ (f : Form). f.serial.connected) sent) hl in
      rw (hd, send_limits)
        (written ∙ ap (λ (f : Form). f.serial.written ++ command b'T' limit ∷ []) sent, returned)

  -- With the port open and staying open, VRX 0 not tracked, the frequency already sent, a
  -- calibration that is a number, and a delay and a limit that pass their checks, the answer to ~TX
  -- writes exactly `init_commands` in this order, and throws nothing.
  pub init_tx-init_commands :
      (p : Panel) (v : ℤ) (delay limit : Bytes)
      → IsQuiet p.desk.form
      → stoi (or_default (codes "0") p.stored.freq_cal) ≡ value v
      → get_valid_ft8_tx_delay p.stored.ft8_tx_delay ≡ some delay
      → get_valid_temp_limit p.stored.temp_limit ≡ some limit
      → ((init_tx d p).0.desk.form.serial.written
          ≡ p.desk.form.serial.written ++ init_commands p delay limit)
        × ((init_tx d p).1 ≡ false)
  unfolding init_tx send_levels
  init_tx-init_commands p v delay limit q e hd hl =
      let c = cal_panel p (cal_form p) in
      let (written, returned) =
        limits-written (send_levels d c) delay limit (levels-connected c refl) hd hl in
      rw (send_freq_cal-panel p v q e) (
        written
            ∙ ap
                (λ (f : Form).
                  f.serial.written ++ command b'V' delay ∷ [] ++ command b'T' limit ∷ [])
                (levels-panel c refl)
            ∙ append_nine p.desk.form.serial.written (frequency_command p.desk.form)
                (command b'C' (or_default (codes "0") p.stored.freq_cal)) (command b'L' p.tx_level)
                (command b'P' p.pa_level) (command b'Q' (codes "0"))
                (command b'B' (get_valid_fan_hold p.stored.fan_hold))
                (command b'R' (get_valid_fan_low_pwm p.stored.fan_low_pwm)) (command b'V' delay)
                (command b'T' limit),
        returned,
      )
