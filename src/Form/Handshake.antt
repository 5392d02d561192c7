-- ===== src/Form/Handshake.antt =====
-- What ProcessUDPEvent leaves in the globals for the UDP thread, and which pages it opens.
use sdr_plugin_txlink_wsjt_x.Base.{
  ℕ, ◌≡◌, refl, sym, ap, ◌∙◌, inl, inr, [], Bool, true, false, not, ◌&&◌, Bytes, pos, arith,
  Bool-cases, codes, ltb, if◌then◌else◌,
}
use sdr_plugin_txlink_wsjt_x.Settings.{split_ft8}
use sdr_plugin_txlink_wsjt_x.Udp.{Globals}
use sdr_plugin_txlink_wsjt_x.Form.{Device, Form}
use sdr_plugin_txlink_wsjt_x.Form.Frequency.{
  eq_ℤ, is_ft8, write_frequency, annotate, force_vfo1, send_tx_freq, take_wsjtx_freq,
  set_data_radio, setup_data_mode, set_rx_freq,
}
use sdr_plugin_txlink_wsjt_x.Form.UdpEvent.{
  Desk, take_frequency, write_transmission, enter_transmission, prepare, take_halt, write_key,
  serve_arduino, finish_event, ignore_event, process_udp_event,
}

force_vfo1-globals : (f : Form) → (force_vfo1 f).globals ≡ f.globals
unfolding force_vfo1
force_vfo1-globals f = ground arith

write_frequency-globals : (d : Device) (f : Form) → (write_frequency d f).globals ≡ f.globals
unfolding write_frequency
write_frequency-globals d f = ground arith

send_tx_freq-globals : (d : Device) (f : Form) → (send_tx_freq d f).globals ≡ f.globals
unfolding send_tx_freq
send_tx_freq-globals d f = ground arith

take_wsjtx_freq-globals : (d : Device) (f : Form) → (take_wsjtx_freq d f).globals ≡ f.globals
unfolding take_wsjtx_freq set_rx_freq
take_wsjtx_freq-globals d f = elim (Bool-cases (eq_ℤ f.current_tx_freq f.current_wsjtx_freq)) [
  | inl e ↦ rw e refl
  | inr e ↦ rw e (
      send_tx_freq-globals d
        (set_rx_freq (record f { split_mode = split_ft8; current_tx_freq = f.current_wsjtx_freq })))
]

-- The globals but for `TXmodeChange`.
abbrev pub SameGlobals : Globals → Globals → Type 0
SameGlobals g h = record g { tx_mode_change = false } ≡ record h { tx_mode_change = false }

setup_data_mode-globals :
    (d : Device) (f : Form) → SameGlobals (setup_data_mode d f).globals f.globals
unfolding setup_data_mode set_data_radio annotate
setup_data_mode-globals d f =
    ap (λ (g : Globals). record g { tx_mode_change = false }) (take_wsjtx_freq-globals d f)

set_new_frequency :
    (g : Globals) (b : Bool) → ltb 0 g.new_frequency ≡ false → record g { new_frequency = 0 } ≡ g
set_new_frequency g b e = ap (λ n. record g { new_frequency = n }) (ground (arith, e))

take_frequency-globals :
    (d : Device) (f : Form)
    → SameGlobals (take_frequency d f).globals (record (f.globals) { new_frequency = 0 })
unfolding take_frequency
take_frequency-globals d f = elim (Bool-cases (ltb 0 f.globals.new_frequency)) [
  | inl e ↦ rw e (
      setup_data_mode-globals d (record f {
        current_wsjtx_freq = pos f.globals.new_frequency;
        globals = record (f.globals) { new_frequency = 0 };
      }))
  | inr e ↦ rw e (
      ap (λ (g : Globals). record g { tx_mode_change = false })
        (sym (set_new_frequency f.globals true e)))
]

prepare-globals :
    (d : Device) (now : ℕ) (f : Form) → SameGlobals (prepare d now f).0.globals f.globals
unfolding prepare enter_transmission write_transmission
prepare-globals d now f = by_flag f.globals.tx_flg
  where
    by_flag :
        (b : Bool)
        → let x : Form × Bytes =
            if b
            then (enter_transmission d (write_transmission d now f), codes "{X1}")
            else (f, codes "{X0}") in
          SameGlobals x.0.globals f.globals
    by_flag true =
        setup_data_mode-globals d
          (record (write_transmission d now f) { digi_tx_mode_str = f.globals.tx_mode_str })
    by_flag false = refl

take_halt-globals :
    (x : Form × Bytes)
    → (take_halt x).0.globals ≡ record (x.0.globals) { udp_halt_tx_event = false }
unfolding take_halt
take_halt-globals x = by_halt x.0.globals.udp_halt_tx_event refl
  where
    by_halt :
        (b : Bool)
        → x.0.globals.udp_halt_tx_event ≡ b
        → let y : Form × Bytes =
            if b
            then (
              record (x.0) { globals = record (x.0.globals) { udp_halt_tx_event = false } },
              codes "{X0}{W0}",
            )
            else x in
          y.0.globals ≡ record (x.0.globals) { udp_halt_tx_event = false }
    by_halt true e = refl
    by_halt false e = ap (λ v. record (x.0.globals) { udp_halt_tx_event = v }) e

write_key-globals : (d : Device) (x : Form × Bytes) → (write_key d x).globals ≡ x.0.globals
unfolding write_key
write_key-globals d x = ground arith

-- The globals behind the commands to the Arduino.
abbrev pub served_globals : Globals → Globals
served_globals g = record g { new_frequency = 0; udp_halt_tx_event = false }

serve_arduino-globals :
    (d : Device) (now : ℕ) (f : Form)
    → SameGlobals (serve_arduino d now f).globals (served_globals f.globals)
unfolding serve_arduino
serve_arduino-globals d now f =
    let t = take_frequency d f in
    let p = prepare d now t in
    ap (λ (g : Globals). record g { tx_mode_change = false })
      (write_key-globals d (take_halt p) ∙ take_halt-globals p)
    ∙ ap (λ (g : Globals). record g { udp_halt_tx_event = false }) (prepare-globals d now t)
    ∙ ap (λ (g : Globals). record g { udp_halt_tx_event = false }) (take_frequency-globals d f)

-- What the UDP thread finds behind an event: an event before the first data mode is dropped, and
-- without the Arduino the frequency and the stop stay pending.
abbrev pub left_behind : Form → Globals
left_behind f =
    let g = f.globals in
    if f.first_time && not (is_ft8 f.split_mode)
    then record g { new_frequency = 0; udp_event = false }
    else record (if f.serial.connected then served_globals g else g) {
      new_dx_call = [];
      udp_event = false;
    }

-- The form that `finish_event` starts from.
served_form-globals :
    (d : Device) (now : ℕ) (f : Form) (connected : Bool)
    → let later : Form = record f { first_time = false } in
      let served : Form = if connected then serve_arduino d now later else later in
      SameGlobals served.globals (if connected then served_globals f.globals else f.globals)
served_form-globals d now f true = serve_arduino-globals d now (record f { first_time = false })
served_form-globals d now f false = refl

-- Behind a posted event the globals are `left_behind`, but for `TXmodeChange`: the event is taken
-- on every path; before the first data mode only the frequency is dropped; otherwise the new call
-- is taken too, and, if the Arduino is connected, the frequency and the stop.
pub process_udp_event-left_behind :
    (d : Device) (now : ℕ) (k : Desk)
    → k.form.globals.udp_event ≡ true
    → SameGlobals (process_udp_event d now k).form.globals (left_behind k.form)
unfolding process_udp_event finish_event ignore_event
process_udp_event-left_behind d now k e =
    by_cases k.form.globals.udp_event (k.form.first_time && not (is_ft8 k.form.split_mode)) e
  where
    by_cases :
        (posted dropped : Bool)
        → posted ≡ true
        → let f = k.form in
          let g = f.globals in
          let later : Form = record f { first_time = false } in
          let served : Form = if f.serial.connected then serve_arduino d now later else later in
          let left : Desk =
            if not posted
            then k
            else if dropped
            then ignore_event k
            else finish_event (record k { form = served }) in
          SameGlobals left.form.globals (
            if dropped
            then record g { new_frequency = 0; udp_event = false }
            else record (if f.serial.connected then served_globals g else g) {
              new_dx_call = [];
              udp_event = false;
            })
    by_cases true true p = refl
    by_cases true false p =
        ap (λ (g : Globals). record g { new_dx_call = []; udp_event = false })
          (served_form-globals d now k.form k.form.serial.connected)
    by_cases false dropped p = absurd (ground (arith, p))
