-- ===== src/Ui.antt =====
-- SDRunoPlugin_TXLink/SDRunoPlugin_TXLinkUi.cpp: HandleEvent, which takes the events of SDRuno. The
-- controller's two frequencies are those of the form's state, as whole numbers of Hz.
pub mod Split
pub mod Examples
use sdr_plugin_txlink_wsjt_x.Base.{
  ℕ, ◌^◌, ◌%◌, [], Bool, true, false, not, ◌&&◌, ◌||◌, Bytes, ℤ, pos, negsuc, pos_part, ltb_ℤ,
  to_unsigned, codes, ◌==◌, if◌then◌else◌,
}
use sdr_plugin_txlink_wsjt_x.Settings.{SplitMode, split_none, split_tx_rx, split_ft8}
use sdr_plugin_txlink_wsjt_x.Annotator.{update_rx_anno_entry}
use sdr_plugin_txlink_wsjt_x.Form.{Form, Controller}
use sdr_plugin_txlink_wsjt_x.Form.Frequency.{eq_ℤ, is_ft8}
use sdr_plugin_txlink_wsjt_x.Panel.{Panel, on_form, post_message}

abbrev pub is_none : SplitMode → Bool
is_none split_none = true
is_none _ = false

-- The static variables of HandleEvent, and the panel.
pub record Ui : Type 0 where
  pub last_f0 : ℕ
  pub last_f1 : ℕ
  pub panel : Panel

-- `(uint32_t)freq`, for a frequency that is not negative.
abbrev pub whole : ℤ → ℕ
whole f = pos_part f % 2 ^ 32

-- The update of CurrentRXfreq and of its marker.
unfoldable pub note_rx_freq : Form → Form
note_rx_freq f =
    let freq0 = f.controller.vfo0 in
    if not (eq_ℤ freq0 (pos 0)) && not (eq_ℤ freq0 f.current_rx_freq) && not (is_ft8 f.split_mode)
    then record f {
      current_rx_freq = freq0;
      annotations = update_rx_anno_entry (codes "RX") [] freq0 f.annotations;
    }
    else f

abbrev pub set_vfo0 : ℤ → Form → Form
set_vfo0 freq f = record f { controller = record (f.controller) { vfo0 = freq } }

abbrev pub set_vfo1 : ℤ → Form → Form
set_vfo1 freq f = record f { controller = record (f.controller) { vfo1 = freq } }

-- The last branch: a TX frequency that VRX 1 sets.
unfoldable pub take_vfo1 : Panel → Panel
unfolding post_message
take_vfo1 p =
    let f = p.desk.form in
    let freq1 = f.controller.vfo1 in
    if not (eq_ℤ freq1 f.current_tx_freq) && ltb_ℤ (pos 0) freq1 && not (is_ft8 f.split_mode)
    then post_message (codes "$SendTXfreq$") (on_form (λ g. record g { current_tx_freq = freq1 }) p)
    else p

-- The branches on the split mode, given which of the frequencies have changed.
unfoldable pub follow : Bool → Bool → Panel → Panel
unfolding post_message take_vfo1
follow f0_changed f1_changed p =
    let f = p.desk.form in
    let freq0 = f.controller.vfo0 in
    if is_none f.split_mode && f1_changed
    then on_form (set_vfo1 freq0) p
    else if is_none f.split_mode && f0_changed
    then post_message (codes "$SendRXfreq$") p
    else if is_ft8 f.split_mode
    then (if not (eq_ℤ freq0 f.current_tx_freq) then on_form (set_vfo0 f.current_tx_freq) p else p)
    else take_vfo1 p

unfoldable pub frequency_changed : Ui → Ui
unfolding note_rx_freq follow
frequency_changed u =
    let c = u.panel.desk.form.controller in
    let f0_changed = not (whole c.vfo0 == u.last_f0) in
    let f1_changed = not (whole c.vfo1 == u.last_f1) in
    let noted = record u { last_f0 = whole c.vfo0; last_f1 = whole c.vfo1 } in
    if not f0_changed && not f1_changed
    then noted
    else record noted { panel = follow f0_changed f1_changed (on_form note_rx_freq u.panel) }

pub data UnoEvent : Type 0 where
  saving_workspace frequency_change other : UnoEvent

-- ClosingDown only asks SDRuno to unload the plugin, and the other events do nothing.
unfoldable pub handle_event : UnoEvent → Ui → Ui
unfolding frequency_changed post_message
handle_event saving_workspace u = record u { panel = post_message (codes "$SaveIniData$") u.panel }
handle_event frequency_change u = frequency_changed u
handle_event other u = u
