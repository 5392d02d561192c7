-- ===== src/Transmitter/Start.antt =====
-- TXlink4_Nano/TXlink4_Nano.ino: `AdjustStart`, the symbol that a late transmission starts with.
pub mod Fit
use sdr_plugin_txlink_wsjt_x.Base.{ℕ, ◌/◌, Bool, not, ℤ, pos, ◌-ℤ◌, ltb_ℤ, if◌then◌else◌, pos_part}
use sdr_plugin_txlink_wsjt_x.Form.Frequency.{eq_ℤ}
use sdr_plugin_txlink_wsjt_x.Transmitter.{Digital, Tones}
use sdr_plugin_txlink_wsjt_x.Transmitter.Numbers.{wrap}
use sdr_plugin_txlink_wsjt_x.Transmitter.Commands.{mode_ft4}

abbrev pub is_ft4 : Digital → Bool
is_ft4 d = eq_ℤ d.tx_mode mode_ft4

-- `TimeLeft`, an `int`.
abbrev pub time_left : Digital → ℤ
time_left d =
    if is_ft4 d then wrap 2 (wrap 2 d.ftx_millis_to_end -ℤ pos 1460) else wrap 2 d.ftx_millis_to_end

abbrev pub kill_time : Digital → ℤ
kill_time d = if is_ft4 d then pos 2020 else pos 5500

abbrev pub trunc_time : Digital → ℤ
trunc_time d = if is_ft4 d then pos 5040 else pos 12650

abbrev pub between : ℤ → ℤ → ℤ
between i count =
    let least : ℤ = if ltb_ℤ i (pos 0) then pos 0 else i in
    if ltb_ℤ count least then count else least

unfoldable pub adjust_start : Digital → Tones → ℤ
adjust_start d t =
    if ltb_ℤ (time_left d) (kill_time d)
    then t.symbol_count
    else if not (ltb_ℤ (trunc_time d) (time_left d))
    then between (t.symbol_count -ℤ pos (pos_part (time_left d) / t.tone_duration)) t.symbol_count
    else pos 0
