-- ===== src/Panel/Init.antt =====
-- A stored setting that stops the answer to "~TX".
use sdr_plugin_txlink_wsjt_x.Base.{
  ◌≡◌, ◌≢◌, refl, ap, ◌∙◌, ◌⊎◌, [], none, true, false, Bytes, pos, codes,
}
use sdr_plugin_txlink_wsjt_x.Settings.{
  Parsed, value, invalid_argument, out_of_range, stoi, leading_digits, parse_positive, parse_sign,
  or_default, get_valid_ft8_tx_delay,
}
use sdr_plugin_txlink_wsjt_x.Settings.Valid.{valid_below_throws}
use sdr_plugin_txlink_wsjt_x.Form.{Device}
use sdr_plugin_txlink_wsjt_x.Form.Frequency.{write_frequency, send_rx_freq}
use sdr_plugin_txlink_wsjt_x.Panel.{
  Panel, on_form, send_setting, send_freq_cal_to_tx, send_levels, send_limits, init_tx,
}

-- A text that `stoi` refuses.
abbrev pub IsNoNumber : Bytes → Type 0
IsNoNumber t = (stoi t ≡ invalid_argument) ⊎ (stoi t ≡ out_of_range)

send_freq_cal-delay :
    (d : Device) (p : Panel) → (send_freq_cal_to_tx d p).stored.ft8_tx_delay ≡ p.stored.ft8_tx_delay
unfolding send_freq_cal_to_tx
send_freq_cal-delay d p = go (stoi (or_default (codes "0") p.stored.freq_cal))
  where
    go :
        (r : Parsed)
        → let tmp = or_default (codes "0") p.stored.freq_cal in
          let kept : Panel = record p { stored = record (p.stored) { freq_cal = tmp } } in
          let q : Panel = elim r [
            | value v ↦ on_form (λ f. send_rx_freq d false (send_setting d b'C' tmp f)) kept
            | invalid_argument ↦ kept
            | out_of_range ↦ kept
          ] in
          q.stored.ft8_tx_delay ≡ p.stored.ft8_tx_delay
    go (value v) = refl
    go invalid_argument = refl
    go out_of_range = refl

-- The panel behind the levels, before the delay.
abbrev pub behind_levels : Device → Panel → Panel
behind_levels d p = send_levels d (send_freq_cal_to_tx d (on_form (write_frequency d) p))

behind_levels-delay :
    (d : Device) (p : Panel) → (behind_levels d p).stored.ft8_tx_delay ≡ p.stored.ft8_tx_delay
unfolding send_levels
behind_levels-delay d p = send_freq_cal-delay d (on_form (write_frequency d) p)

default_delay : stoi (codes "250") ≡ value (pos 250)
unfolding stoi parse_sign parse_positive leading_digits
default_delay = refl

send_limits_throws :
    (d : Device) (q : Panel)
    → get_valid_ft8_tx_delay q.stored.ft8_tx_delay ≡ none
    → send_limits d q ≡ (q, true)
unfolding send_limits
send_limits_throws d q e = rw (e, send_limits) refl

-- With a stored delay that is no number, the exception leaves the answer to "~TX": the levels have
-- been sent, the delay and the temperature limit have not.
pub init_tx_throws :
    (d : Device) (p : Panel)
    → p.stored.ft8_tx_delay ≢ []
    → IsNoNumber p.stored.ft8_tx_delay
    → init_tx d p ≡ (behind_levels d p, true)
unfolding init_tx
init_tx_throws d p some_text bad =
    let thrown =
      (valid_below_throws (codes "250") p.stored.ft8_tx_delay 3000 (pos 250) default_delay).1
        (some_text, bad) in
    send_limits_throws d (behind_levels d p)
      (ap get_valid_ft8_tx_delay (behind_levels-delay d p) ∙ thrown)
