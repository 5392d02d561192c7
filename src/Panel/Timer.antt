-- ===== src/Panel/Timer.antt =====
-- SDRunoPlugin_TXLink/SDRunoPlugin_TXLinkForm.cpp: OnTimer, and what it does for the unload. The
-- window's state and the caption of the frequency are left out.
use sdr_plugin_txlink_wsjt_x.Base.{
  ℕ, List, Option, Bool, true, false, not, ◌&&◌, codes, if◌then◌else◌,
}
use sdr_plugin_txlink_wsjt_x.Settings.{save_split_mode}
use sdr_plugin_txlink_wsjt_x.Form.{Device, write}
use sdr_plugin_txlink_wsjt_x.Form.UdpEvent.{process_udp_event}
use sdr_plugin_txlink_wsjt_x.Panel.{
  Panel, on_form, send_tx_level, send_pa_level, send_pa_state, save_ini_data, process_message_queue,
  process_incoming_serial,
}

-- SetStandbyMode.
unfoldable pub set_standby_mode : Device → Bool → Panel → Panel
set_standby_mode d standby p =
    let ready =
      on_form
        (λ f. write d (codes "{U}") (
          send_pa_state d p.pa_checked (send_pa_level d p.pa_level (send_tx_level d p.tx_level f))))
        p in
    if not p.desk.form.serial.connected
    then p
    else if standby
    then on_form (write d (codes "{D}")) p
    else ready

-- What the unload asks of the form: the settings are saved, the transmitter is put on standby, and
-- the port is closed.
unfoldable pub close_down : Device → Panel → Panel
unfolding set_standby_mode save_split_mode
close_down d p =
    on_form (λ f. record f { serial = record (f.serial) { connected = false } })
      (set_standby_mode d true (on_form save_ini_data p))

-- The form with the flags of OnTimer: `busy` is static, and an exception leaves it set.
pub record Timer : Type 0 where
  pub panel : Panel
  pub busy : Bool
  pub prepare_request : Bool
  pub unload_in_progress : Bool
  pub exit_all_request : Bool
  pub back_from_exit : Bool

-- A tick behind the request to unload.
unfoldable pub await_exit : Timer → Timer
await_exit t =
    if t.exit_all_request && not t.back_from_exit
    then record t { back_from_exit = true; exit_all_request = false }
    else if t.back_from_exit
    then record t { busy = true }
    else t

-- A tick as long as nothing is unloaded.
unfoldable pub serve : Device → ℕ → List (Option ℕ) → Timer → Timer
unfolding process_message_queue process_incoming_serial process_udp_event
serve d now reads t =
    let x = process_incoming_serial d reads (process_message_queue d t.panel) in
    let q = x.0 in
    if x.1
    then record t { panel = q; busy = true }
    else record t { panel = record q { desk = process_udp_event d now q.desk } }

unfoldable pub on_timer : Device → ℕ → List (Option ℕ) → Timer → Timer
unfolding close_down await_exit serve
on_timer d now reads t =
    if t.busy
    then t
    else if t.prepare_request
    then record t {
      panel = close_down d t.panel;
      unload_in_progress = true;
      prepare_request = false;
    }
    else if t.unload_in_progress
    then await_exit t
    else serve d now reads t
