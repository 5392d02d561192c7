-- ===== src/Transmitter/MainLoop/Wrap.antt =====
-- TXlink4_Nano/TXlink4_Nano.ino: `LastKeyUpMillis` when the clock has passed 2 ^ 31 ms.
use sdr_plugin_txlink_wsjt_x.Base.{
  ◌^◌, ◌≤◌, ◌≡◌, refl, ap, ◌∙◌, arith, List, [], ◌∷◌, true, false, some, ltb,
}
use sdr_plugin_txlink_wsjt_x.Transmitter.{Sketch, Keying}
use sdr_plugin_txlink_wsjt_x.Transmitter.Message.{background}
use sdr_plugin_txlink_wsjt_x.Transmitter.MainLoop.{Pass, receive_mode, is_counting}
use sdr_plugin_txlink_wsjt_x.Transmitter.MainLoop.Background.{background-Calm}
use sdr_plugin_txlink_wsjt_x.Transmitter.MainLoop.Release.{
  IsIdle, loops, loop-idle, going_up, receive_mode-first,
}

-- Idle passes while the clock is negative as a `long`.
pub data AllLate : List Pass → Type 0 where
  no_pass : AllLate []
  and_late : {p : Pass} {l : List Pass} → IsIdle p → 2 ^ 31 ≤ p.now → AllLate l → AllLate (p ∷ l)

-- With no digital message, if the key is down and no hold time runs, then after any passes with the
-- key up, nothing on the line and a clock of 2 ^ 31 ms or more, the key still counts as down.
pub loops-stuck :
    (l : List Pass) (s : Sketch)
    → AllLate l
    → s.digital.digi_tx_on ≡ false
    → s.keying.key_down_active ≡ true
    → is_counting s.keying.last_key_up_millis ≡ false
    → (t : Sketch) × (loops l s ≡ some t × t.keying.key_down_active ≡ true)
loops-stuck [] s a off d n = (s, (refl, d))
loops-stuck (p ∷ l) s (and_late i late a) off d n =
    let k : Keying = going_up p.now s.keying in
    let c =
      background-Calm k p.after (receive_mode p.now s) i.silent
        (receive_mode-first p.now s off d n) in
    let high : ltb p.now (2 ^ 31) ≡ false = ground arith in
    let wrapped : is_counting p.now ≡ false = ground arith in
    let (t, r) =
      loops-stuck l (background p.after (receive_mode p.now s)) a c.off
        (ap {A = Keying} (λ x. x.key_down_active) c.keying ∙ d)
        (ap {A = Keying} (λ x. is_counting x.last_key_up_millis) c.keying ∙ wrapped) in
    (t, (rw (loop-idle p s i off) r.0, r.1))
