-- ===== src/Transmitter/MainLoop/Release.antt =====
-- TXlink4_Nano/TXlink4_Nano.ino: a key that is released takes the sketch back to receiving.
use sdr_plugin_txlink_wsjt_x.Base.{
  ℕ, ◌^◌, ◌≤◌, ◌<◌, ◌≡◌, refl, ap, ◌∙◌, inl, inr, arith, List, [], ◌∷◌, Bool, true, false, Option,
  some, codes, ltb, leb, if◌then◌else◌, Bool-cases,
}
use sdr_plugin_txlink_wsjt_x.Transmitter.{Sketch, Keying, perform, digital_write, key_out}
use sdr_plugin_txlink_wsjt_x.Transmitter.Commands.{set_frequency_hz_x10}
use sdr_plugin_txlink_wsjt_x.Transmitter.Rtty.{◌>>=◌}
use sdr_plugin_txlink_wsjt_x.Transmitter.Safety.{elapsed, as_unsigned, serial_println}
use sdr_plugin_txlink_wsjt_x.Transmitter.Message.{background}
use sdr_plugin_txlink_wsjt_x.Transmitter.MainLoop.{
  Pass, key_released, receive_mode, is_counting, loop,
}
use sdr_plugin_txlink_wsjt_x.Transmitter.MainLoop.Background.{
  Calm, serial_println-Calm, background-Calm,
}

-- A pass with the key up and nothing on the line.
pub record IsIdle (p : Pass) : Type 0 where
  pub released : p.pressed ≡ false
  pub silent : p.after.received ≡ []

pub data AllIdle : List Pass → Type 0 where
  none_left : AllIdle []
  and_idle : {p : Pass} {l : List Pass} → IsIdle p → AllIdle l → AllIdle (p ∷ l)

-- The time `hold` since `since` is over in one of the passes.
pub data AnyOver (hold since : ℕ) : List Pass → Type 0 where
  here : {p : Pass} {l : List Pass} → hold ≤ elapsed p.now since → AnyOver hold since (p ∷ l)
  there : {p : Pass} {l : List Pass} → AnyOver hold since l → AnyOver hold since (p ∷ l)

abbrev pub loops : List Pass → Sketch → Option Sketch
loops [] s = some s
loops (p ∷ l) s = loop p s >>= loops l

-- The key went up at `since`, and the sketch receives again.
abbrev pub going_up : ℕ → Keying → Keying
going_up since k = record k { last_key_up_millis = since }

abbrev gone_up : Keying → Keying
gone_up k = record k { key_down_active = false; last_key_up_millis = 0 }

key_released-Calm :
    (now : ℕ) (s : Sketch)
    → s.digital.digi_tx_on ≡ false
    → Calm (gone_up s.keying) (key_released now s)
unfolding key_released set_frequency_hz_x10
key_released-Calm now s off =
    let k : Keying = record s.keying { key_down_active = false } in
    let told : Calm k (serial_println (codes "{N}") (record s { keying = k })) =
      serial_println-Calm k (codes "{N}") (record s { keying = k })
        (record { keying = refl; off = off }) in
    record {
      keying = ap {A = Keying} (λ x. record x { last_key_up_millis = 0 }) told.keying;
      off = told.off;
    }

pub receive_mode-first :
    (now : ℕ) (s : Sketch)
    → s.digital.digi_tx_on ≡ false
    → s.keying.key_down_active ≡ true
    → is_counting s.keying.last_key_up_millis ≡ false
    → Calm (going_up now s.keying) (receive_mode now s)
unfolding receive_mode
receive_mode-first now s off a z = rw (z, a) (record { keying = refl; off = off })

receive_mode-count :
    (now : ℕ) (s : Sketch)
    → s.digital.digi_tx_on ≡ false
    → is_counting s.keying.last_key_up_millis ≡ true
    → (b : Bool)
    → leb (as_unsigned s.keying.tx_hold_time) (elapsed now s.keying.last_key_up_millis) ≡ b
    → Calm (if b then gone_up s.keying else s.keying) (receive_mode now s)
unfolding receive_mode
receive_mode-count now s off w true e =
    rw (w, e) (key_released-Calm now (perform (digital_write key_out true) s) off)
receive_mode-count now s off w false e = rw (w, e) (record { keying = refl; off = off })

receive_mode-idle :
    (now : ℕ) (s : Sketch)
    → s.digital.digi_tx_on ≡ false
    → s.keying.key_down_active ≡ false
    → s.keying.last_key_up_millis ≡ 0
    → Calm s.keying (receive_mode now s)
unfolding receive_mode
receive_mode-idle now s off a z = rw (z, a) (record { keying = refl; off = off })

pub loop-idle :
    (p : Pass) (s : Sketch)
    → IsIdle p
    → s.digital.digi_tx_on ≡ false
    → loop p s ≡ some (background p.after (receive_mode p.now s))
unfolding loop
loop-idle p s i off = rw (i.released, off) refl

-- The sketch after the passes receives.
abbrev Receives : Keying → List Pass → Sketch → Type 0
Receives k l s = (t : Sketch) × (loops l s ≡ some t × Calm (gone_up k) t)

loops-first :
    (k : Keying) (p : Pass) (l : List Pass) (s : Sketch)
    → IsIdle p
    → s.digital.digi_tx_on ≡ false
    → Receives k l (background p.after (receive_mode p.now s))
    → Receives k (p ∷ l) s
loops-first k p l s i off (t, (e, c)) = (t, (rw (loop-idle p s i off) e, c))

loops-idle :
    (k : Keying) (l : List Pass) (s : Sketch) → AllIdle l → Calm (gone_up k) s → Receives k l s
loops-idle k [] s i c = (s, (refl, c))
loops-idle k (p ∷ l) s (and_idle i j) c =
    let kept =
      receive_mode-idle p.now s c.off (ap {A = Keying} (λ x. x.key_down_active) c.keying)
        (ap {A = Keying} (λ x. x.last_key_up_millis) c.keying) in
    loops-first k p l s i c.off (
      loops-idle k l _ j (
        background-Calm (gone_up k) p.after (receive_mode p.now s) i.silent
          (record { keying = kept.keying ∙ c.keying; off = kept.off })))

pass-counting :
    (k : Keying) (since : ℕ)
    → 0 < since
    → since < 2 ^ 31
    → (p : Pass) (s : Sketch) → IsIdle p
    → Calm (going_up since k) s
    → (b : Bool) → leb (as_unsigned k.tx_hold_time) (elapsed p.now since) ≡ b
    → Calm (if b then gone_up k else going_up since k) (background p.after (receive_mode p.now s))
pass-counting k since low high p s i c b e =
    let high_too : ltb since (2 ^ 31) ≡ true = ground arith in
    let low_too : ltb 0 since ≡ true = ground arith in
    let counting : is_counting since ≡ true = rw (low_too, high_too) refl in
    let counted =
      receive_mode-count p.now s c.off
        (ap {A = Keying} (λ x. is_counting x.last_key_up_millis) c.keying ∙ counting) b
        (ap {A = Keying}
            (λ x. leb (as_unsigned x.tx_hold_time) (elapsed p.now x.last_key_up_millis)) c.keying
          ∙ e) in
    background-Calm (if b then gone_up k else going_up since k) p.after (receive_mode p.now s)
      i.silent
      (record {
        keying = counted.keying ∙ ap {A = Keying} (λ x. if b then gone_up x else x) c.keying;
        off = counted.off;
      })

module _ (k : Keying) (since : ℕ) (low : 0 < since) (high : since < 2 ^ 31) where
  loops-counting :
      (l : List Pass) (s : Sketch)
      → AllIdle l
      → AnyOver (as_unsigned k.tx_hold_time) since l
      → Calm (going_up since k) s
      → Receives k l s
  loops-counting [] s i o c = elim o [ ]
  loops-counting (p ∷ l) s (and_idle i j) o c =
      loops-first k p l s i c.off
        (elim (Bool-cases (leb (as_unsigned k.tx_hold_time) (elapsed p.now since))) [
          | inl e ↦ loops-idle k l _ j (pass-counting k since low high p s i c true e)
          | inr e ↦
              loops-counting l _ j (later o e) (pass-counting k since low high p s i c false e)
        ])
    where
      later :
          {p : Pass} {l : List Pass}
          → AnyOver (as_unsigned k.tx_hold_time) since (p ∷ l)
          → leb (as_unsigned k.tx_hold_time) (elapsed p.now since) ≡ false
          → AnyOver (as_unsigned k.tx_hold_time) since l
      later (here h) e = ground arith
      later (there o) e = o

-- With no digital message, if the key is down and no hold time runs: after a pass with the key up
-- at a time between 0 and 2 ^ 31, and further passes with the key up, in one of which the hold time
-- is over, `loop` has ended each pass and the key no longer counts as down. Nothing comes over the
-- line meanwhile; the measurements may be any.
pub loops-receives :
    (p : Pass) (l : List Pass) (s : Sketch)
    → IsIdle p
    → AllIdle l
    → s.digital.digi_tx_on ≡ false
    → s.keying.key_down_active ≡ true
    → s.keying.last_key_up_millis ≡ 0
    → 0 < p.now
    → p.now < 2 ^ 31
    → AnyOver (as_unsigned s.keying.tx_hold_time) p.now l
    → (t : Sketch) × (loops (p ∷ l) s ≡ some t × t.keying.key_down_active ≡ false)
loops-receives p l s i j off a z low high o =
    let first = receive_mode-first p.now s off a (rw z refl) in
    let start =
      background-Calm (going_up p.now s.keying) p.after (receive_mode p.now s) i.silent first in
    let (t, r) =
      loops-first s.keying p l s i off (loops-counting s.keying p.now low high l _ j o start) in
    (t, (r.0, ap {A = Keying} (λ x. x.key_down_active) r.1.keying))
