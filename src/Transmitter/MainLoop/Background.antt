-- ===== src/Transmitter/MainLoop/Background.antt =====
-- TXlink4_Nano/TXlink4_Nano.ino: the background work of `loop` beside the variables of the key.
use sdr_plugin_txlink_wsjt_x.Base.{ℕ, ◌≡◌, refl, List, [], false, Bytes}
use sdr_plugin_txlink_wsjt_x.Transmitter.{Sketch, Keying, Fan, Temperature, Effect}
use sdr_plugin_txlink_wsjt_x.Transmitter.Chip.{Dds}
use sdr_plugin_txlink_wsjt_x.Transmitter.Serial.{process_serial_in}
use sdr_plugin_txlink_wsjt_x.Transmitter.Safety.{serial_println}
use sdr_plugin_txlink_wsjt_x.Transmitter.Safety.Stable.{serial_println-kept, swr_measure-kept}
use sdr_plugin_txlink_wsjt_x.Transmitter.Message.{Moment, background}

-- No digital message, and the variables of the key as given.
pub record Calm (k : Keying) (s : Sketch) : Type 0 where
  pub keying : s.keying ≡ k
  pub off : s.digital.digi_tx_on ≡ false

module _ (k : Keying) where
  writes-Calm :
      (s : Sketch) (d : Dds) (f : Fan) (t : Temperature) (n : ℕ) (l : List Effect)
      → Calm k s
      → Calm k (record s { dds = d; fan = f; temperature = t; avg_counter = n; effects = l })
  writes-Calm s d f t n l c = record { keying = c.keying; off = c.off }

  pub serial_println-Calm : (x : Bytes) (s : Sketch) → Calm k s → Calm k (serial_println x s)
  serial_println-Calm =
      serial_println-kept (Calm k) writes-Calm (λ s c. record { keying = c.keying; off = refl })

  pub background-Calm :
      (m : Moment) (s : Sketch) → m.received ≡ [] → Calm k s → Calm k (background m s)
  unfolding background process_serial_in
  background-Calm m s e c = rw e (
      swr_measure-kept (Calm k) writes-Calm (λ t c. record { keying = c.keying; off = refl }) m.now
        m.reading s c)
