-- ===== src/Tuner/Examples.antt =====
-- The knob on concrete clicks.
use sdr_plugin_txlink_wsjt_x.Base.{
  ◌≤◌, ◌≡◌, ◌⊎◌, refl, [], ◌∷◌, some, none, false, pos, pos_part, neg_part, ◌+ℤ◌, ◌-ℤ◌,
}
use sdr_plugin_txlink_wsjt_x.Settings.{split_none, split_ft8}
use sdr_plugin_txlink_wsjt_x.Form.{demodulator_cw}
use sdr_plugin_txlink_wsjt_x.Tuner.{Tuner, Pass, read_clicks, pass}
use sdr_plugin_txlink_wsjt_x.Tuner.Passes.{Moved, total, passes, passes-Moved, Pressed, pass_ft8}

abbrev knob : Tuner
knob = record {
  encoder_steps = pos 0;
  freq_incr = pos 0;
  controller = record {
    vfo0 = pos 7030000;
    vfo1 = pos 7030000;
    demodulator = demodulator_cw;
    filter_bandwidth = 500;
  };
  keys = [];
}

abbrev rights : Pass
rights = record {
  reads = some b'>' ∷ none ∷ some b'>' ∷ some b'>' ∷ [];
  split_mode = split_none;
  rit = false;
  exit_request = false;
}

abbrev lefts : Pass
lefts = record rights { reads = some b'<' ∷ some b'x' ∷ [] }

passes-Moved_example :
    Moved (total 1 (rights ∷ lefts ∷ [])) knob (passes (rights ∷ lefts ∷ []) knob)
passes-Moved_example =
    passes-Moved (rights ∷ lefts ∷ []) knob ((refl, refl), ((refl, refl), tt)) refl

-- Three to the right and one to the left.
two_up : total 1 (rights ∷ lefts ∷ []) ≡ pos 2
unfolding ◌+ℤ◌ ◌-ℤ◌
two_up = refl

-- One step more than a revolution of 800.
abbrev ft8_knob : Tuner
ft8_knob = record knob { encoder_steps = pos 800 }

abbrev ft8_pass : Pass
ft8_pass = record {
  reads = some b'>' ∷ [];
  split_mode = split_ft8;
  rit = false;
  exit_request = false;
}

pass_ft8_example :
    ((pass ft8_pass ft8_knob).0.controller ≡ ft8_knob.controller)
    × Pressed
        (read_clicks 1 (some b'>' ∷ []) (pos 800, pos 0)).0
        ft8_knob
        (pass ft8_pass ft8_knob).0
    × (((read_clicks 1 (some b'>' ∷ []) (pos 800, pos 0)).1 ≡ pos 0)
        ⊎ ((pos_part (pass ft8_pass ft8_knob).0.encoder_steps ≤ 800)
            × (neg_part (pass ft8_pass ft8_knob).0.encoder_steps ≤ 800)))
pass_ft8_example = pass_ft8 ft8_pass ft8_knob refl refl
