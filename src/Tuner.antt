-- ===== src/Tuner.antt =====
-- SDRunoPlugin_TXLink/TunerServer.cpp: the loop that turns the clicks of the tuning knob into
-- frequencies, or into key strokes for WSJT-X. The 32-bit counters are whole numbers here.
pub mod Passes
pub mod Examples
use sdr_plugin_txlink_wsjt_x.Base.{
  ℕ, List, [], ◌∷◌, ◌++◌, Option, none, some, Bool, true, false, not, ◌&&◌, ◌||◌, ℤ, pos, negsuc,
  pos_part, neg_part, ◌+ℤ◌, ◌-ℤ◌, ltb, ltb_ℤ, ◌==◌, if◌then◌else◌,
}
use sdr_plugin_txlink_wsjt_x.Settings.{SplitMode, split_none, split_tx_rx, split_ft8}
use sdr_plugin_txlink_wsjt_x.Form.{Demodulator, demodulator_cw, demodulator_usb, Controller}
use sdr_plugin_txlink_wsjt_x.Form.Frequency.{eq_ℤ}

pub data Key : Type 0 where
  ctrl_shift_f11 ctrl_shift_f12 : Key

pub record Tuner : Type 0 where
  pub encoder_steps : ℤ
  pub freq_incr : ℤ
  pub controller : Controller
  pub keys : List Key

-- What a pass of the loop finds: the reads of the port (none at all if it is not connected; `none`
-- for a read that fails), the split mode, the RIT box and the exit request behind the reads.
pub record Pass : Type 0 where
  pub reads : List (Option ℕ)
  pub split_mode : SplitMode
  pub rit : Bool
  pub exit_request : Bool

abbrev pub delta_of : Demodulator → ℕ
delta_of demodulator_cw = 1
delta_of demodulator_usb = 10

unfoldable pub read_click : ℕ → ℕ → ℤ × ℤ → ℤ × ℤ
unfolding ◌+ℤ◌ ◌-ℤ◌
read_click delta c (steps, incr) =
    let right : ℤ × ℤ = (steps +ℤ pos 1, incr +ℤ pos delta) in
    let left : ℤ × ℤ = (steps -ℤ pos 1, incr -ℤ pos delta) in
    if c == b'>' then right else if c == b'<' then left else (steps, incr)

unfoldable pub read_clicks : ℕ → List (Option ℕ) → ℤ × ℤ → ℤ × ℤ
unfolding read_click
read_clicks delta [] s = s
read_clicks delta (none ∷ rs) s = read_clicks delta rs s
read_clicks delta (some c ∷ rs) s = read_clicks delta rs (read_click delta c s)

abbrev pub reset : Tuner → Tuner
reset t = record t { encoder_steps = pos 0; freq_incr = pos 0 }

abbrev pub move_vfo0 : Tuner → Tuner
move_vfo0 t = record t {
  controller = record (t.controller) { vfo0 = t.controller.vfo0 +ℤ t.freq_incr };
}

abbrev pub move_vfo1 : Tuner → Tuner
move_vfo1 t = record t {
  controller = record (t.controller) { vfo1 = t.controller.vfo1 +ℤ t.freq_incr };
}

-- The part on the split mode.
unfoldable pub tune : SplitMode → Bool → Tuner → Tuner
unfolding ◌+ℤ◌
tune split_none rit t = reset (move_vfo0 t)
tune split_tx_rx rit t = reset (if rit then move_vfo0 t else move_vfo1 t)
tune split_ft8 rit t = t

-- The part on the steps.
unfoldable pub press_keys : Tuner → Tuner
press_keys t =
    let up = reset (record t { keys = t.keys ++ ctrl_shift_f12 ∷ [] }) in
    let down = reset (record t { keys = t.keys ++ ctrl_shift_f11 ∷ [] }) in
    if ltb 800 (pos_part t.encoder_steps)
    then up
    else if ltb 800 (neg_part t.encoder_steps)
    then down
    else t

-- One pass; the Boolean says that the loop is left.
unfoldable pub pass : Pass → Tuner → Tuner × Bool
unfolding read_clicks tune press_keys
pass x t =
    let (steps, incr) =
      read_clicks (delta_of t.controller.demodulator) x.reads (t.encoder_steps, t.freq_incr) in
    let counted = record t { encoder_steps = steps; freq_incr = incr } in
    if eq_ℤ incr (pos 0)
    then (counted, false)
    else if x.exit_request
    then (counted, true)
    else (press_keys (tune x.split_mode x.rit counted), false)
