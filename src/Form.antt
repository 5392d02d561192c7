-- ===== src/Form.antt =====
-- SDRunoPlugin_TXLink/SDRunoPlugin_TXLinkForm.cpp: the state of the form, as far as the frequency,
-- the messages to the Arduino and the events of WSJT-X need it. Labels, colours and the log are
-- left out. Frequencies are whole numbers of Hz, where the source has doubles.
pub mod Frequency
pub mod Once
pub mod UdpEvent
pub mod Calls
pub mod Ring
pub mod Keying
pub mod Handshake
pub mod Examples
use sdr_plugin_txlink_wsjt_x.Base.{
  ℕ, suc, ◌+◌, List, [], ◌∷◌, ◌++◌, Bool, true, false, not, ◌&&◌, ◌||◌, Bytes, ℤ, pos, negsuc,
  codes, to_string, if◌then◌else◌,
}
use sdr_plugin_txlink_wsjt_x.Queue.{MessageQueue}
use sdr_plugin_txlink_wsjt_x.Settings.{SplitMode}
use sdr_plugin_txlink_wsjt_x.Annotator.{Annotations}
use sdr_plugin_txlink_wsjt_x.Udp.{Globals}

-- The COM port: how each write ends, given what was written before, whether the port is still
-- connected behind it, and whether it opens again.
pub record Device : Type 0 where
  pub write_ok : List Bytes → Bytes → Bool
  pub stays_open : List Bytes → Bytes → Bool
  pub reopens : Bool

pub record Serial : Type 0 where
  pub connected : Bool
  pub written : List Bytes

-- `WriteSerialPort`: `written` lists the texts in the order of the calls.
abbrev pub write_serial_port : Device → Bytes → Serial → Serial × Bool
write_serial_port d text s = (
  record {
    connected = s.connected && d.stays_open s.written text;
    written = s.written ++ text ∷ [];
  },
  d.write_ok s.written text,
)

pub data Demodulator : Type 0 where
  demodulator_cw demodulator_usb : Demodulator

-- What the form sets in SDRuno.
pub record Controller : Type 0 where
  pub vfo0 : ℤ
  pub vfo1 : ℤ
  pub demodulator : Demodulator
  pub filter_bandwidth : ℕ

pub record Form : Type 0 where
  pub current_tx_freq : ℤ
  pub current_rx_freq : ℤ
  pub current_wsjtx_freq : ℤ
  pub last_tx_freq : ℤ
  pub track_freq : Bool
  pub split_mode : SplitMode
  pub digi_tx_mode_str : Bytes
  pub first_time : Bool
  pub serial : Serial
  pub controller : Controller
  pub annotations : Annotations
  pub rtty_msg_out_q : MessageQueue Bytes
  pub saved_split_mode : Bytes
  pub globals : Globals

-- `std::to_string` of a signed number.
unfoldable pub signed_to_string : ℤ → Bytes
signed_to_string (pos n) = to_string n
signed_to_string (negsuc n) = b'-' ∷ to_string (suc n)

-- A command of the Arduino: `{`, its letter, its argument and `}`.
unfoldable pub command : ℕ → Bytes → Bytes
command letter argument = b'{' ∷ letter ∷ (argument ++ b'}' ∷ [])

-- A write whose result is not looked at.
abbrev pub write : Device → Bytes → Form → Form
write d text f = record f { serial = (write_serial_port d text f.serial).0 }
