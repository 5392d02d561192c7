-- ===== src/Form/Frequency.antt =====
-- SDRunoPlugin_TXLink/SDRunoPlugin_TXLinkForm.cpp: SendTXfreq, SendRXfreq, SetRXFreq and
-- SetupDataMode.
use sdr_plugin_txlink_wsjt_x.Base.{
  ℕ, ◌+◌, [], Bool, true, false, not, ◌&&◌, ◌||◌, Bytes, ℤ, pos, pos_part, neg_part, ◌+ℤ◌, ltb_ℤ,
  codes, str_eq, ◌==◌, if◌then◌else◌,
}
use sdr_plugin_txlink_wsjt_x.Queue.{push}
use sdr_plugin_txlink_wsjt_x.Settings.{SplitMode, split_ft8}
use sdr_plugin_txlink_wsjt_x.Annotator.{update_tx_anno_entry, update_rx_anno_entry}
use sdr_plugin_txlink_wsjt_x.Encode.{ft4}
use sdr_plugin_txlink_wsjt_x.Form.{
  Device, demodulator_usb, Form, write_serial_port, signed_to_string, command,
}

abbrev pub eq_ℤ : ℤ → ℤ → Bool
eq_ℤ a b = pos_part a + neg_part b == pos_part b + neg_part a

abbrev pub is_ft8 : SplitMode → Bool
is_ft8 split_ft8 = true
is_ft8 _ = false

-- The COM port is opened again if it is not connected.
abbrev pub reopen : Device → Form → Form
reopen d f =
    if f.serial.connected
    then f
    else record f { serial = record { connected = d.reopens; written = f.serial.written } }

abbrev pub frequency_command : Form → Bytes
frequency_command f = command b'F' (signed_to_string f.current_tx_freq)

-- The frequency goes to the Arduino and to the queue of the RTTY program.
unfoldable pub write_frequency : Device → Form → Form
write_frequency d f =
    let str = frequency_command f in
    if f.serial.connected
    then record f {
      serial = (write_serial_port d str f.serial).0;
      rtty_msg_out_q = push f.rtty_msg_out_q str;
    }
    else f

unfoldable pub annotate : Bytes → Bytes → Form → Form
annotate tx_tag rx_tag f = record f {
  annotations =
      update_rx_anno_entry rx_tag [] f.current_rx_freq
        (update_tx_anno_entry tx_tag [] f.current_tx_freq f.annotations);
}

-- VRX 1 follows the TX frequency, but in data mode.
unfoldable pub force_vfo1 : Form → Form
force_vfo1 f =
    if not (eq_ℤ f.controller.vfo1 f.current_tx_freq)
      && (ltb_ℤ (pos 0) f.controller.vfo1 && not (is_ft8 f.split_mode))
    then record f { controller = record (f.controller) { vfo1 = f.current_tx_freq } }
    else f

unfoldable pub send_tx_freq : Device → Form → Form
unfolding write_frequency annotate force_vfo1
send_tx_freq d f =
    let noted = record f { last_tx_freq = f.current_tx_freq } in
    let sent = write_frequency d (reopen d noted) in
    let shown =
      if is_ft8 sent.split_mode
      then annotate (codes "FT8base") (codes "FTX") sent
      else annotate (codes "TX") (codes "RX") sent in
    if eq_ℤ f.current_tx_freq f.last_tx_freq then f else force_vfo1 shown

-- The Boolean is `freqTb.caption() == ""`.
unfoldable pub send_rx_freq : Device → Bool → Form → Form
unfolding send_tx_freq
send_rx_freq d no_caption f =
    let tmp = f.controller.vfo0 in
    let tracked =
      if (f.track_freq || no_caption) && ltb_ℤ (pos 0) tmp
      then record f { current_tx_freq = tmp; current_rx_freq = tmp }
      else f in
    send_tx_freq d tracked

unfoldable pub set_rx_freq : Form → Form
set_rx_freq f = record f {
  controller = record (f.controller) { vfo0 = f.current_tx_freq; vfo1 = f.current_tx_freq };
}

-- The first part of SetupDataMode: the data mode, and the frequency of WSJT-X if it is another.
unfoldable pub take_wsjtx_freq : Device → Form → Form
unfolding send_tx_freq set_rx_freq
take_wsjtx_freq d f =
    let data_mode = record f { split_mode = split_ft8 } in
    let moved = record data_mode { current_tx_freq = f.current_wsjtx_freq } in
    if not (eq_ℤ f.current_tx_freq f.current_wsjtx_freq)
    then send_tx_freq d (set_rx_freq moved)
    else data_mode

abbrev pub filter_bandwidth_ft8 : ℕ
filter_bandwidth_ft8 = 3000

abbrev pub filter_bandwidth_ft4 : ℕ
filter_bandwidth_ft4 = 3000

-- The second part: both VRX, the markers, the demodulator and, once for a change, the filter.
unfoldable pub set_data_radio : Form → Form
unfolding annotate
set_data_radio f =
    let rx = f.current_tx_freq +ℤ f.globals.tx_df in
    let bndw =
      if str_eq f.digi_tx_mode_str ft4 then filter_bandwidth_ft4 else filter_bandwidth_ft8 in
    let c = f.controller in
    let marked = annotate (codes "FT8Base") (codes "FTX") (record f { current_rx_freq = rx }) in
    record marked {
      controller = record {
        vfo0 = f.current_tx_freq;
        vfo1 = rx;
        demodulator = demodulator_usb;
        filter_bandwidth = if f.globals.tx_mode_change then bndw else c.filter_bandwidth;
      };
      globals = record (f.globals) { tx_mode_change = false };
    }

unfoldable pub setup_data_mode : Device → Form → Form
unfolding take_wsjtx_freq set_data_radio
setup_data_mode d f = set_data_radio (take_wsjtx_freq d f)
