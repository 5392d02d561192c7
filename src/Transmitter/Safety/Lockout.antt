-- ===== src/Transmitter/Safety/Lockout.antt =====
-- TXlink4_Nano/TXlink4_Nano.ino: an unsafe reading takes the power from the transmitter.
use sdr_plugin_txlink_wsjt_x.Base.{
  ℕ, ◌≡◌, refl, ap, ◌∙◌, inl, inr, Bool, true, false, not, ◌||◌, ◌&&◌, pos, ltb_ℤ, ltb, leb,
  if◌then◌else◌, Bool-cases, List,
}
use sdr_plugin_txlink_wsjt_x.Transmitter.{Sketch, Fan, Temperature, Effect}
use sdr_plugin_txlink_wsjt_x.Transmitter.Serial.Sound.{either}
use sdr_plugin_txlink_wsjt_x.Transmitter.Safety.{
  Reading, is_unsafe, drive_fan, lock_out, release, check_fan_state, as_unsigned, elapsed, is_hot,
  fan_high_temp, swr_fwd_min, swr_max,
}

-- The transmitter is off, or as it was.
abbrev pub Locked : Bool → Sketch → Sketch → Type 0
Locked danger before after =
    after.power.tx_power_on ≡ (if danger then false else before.power.tx_power_on)
    × after.digital.digi_tx_on ≡ (if danger then false else before.digital.digi_tx_on)
    × after.digital.ftx_millis_to_end ≡ (if danger then pos 0 else before.digital.ftx_millis_to_end)

-- The fan is another matter.
pub record Kept (s t : Sketch) : Type 0 where
  pub power : t.power ≡ s.power
  pub digital : t.digital ≡ s.digital
  pub temperature : t.temperature ≡ s.temperature

drive_fan-Kept : (now : ℕ) (s : Sketch) → Kept s (drive_fan now s)
unfolding drive_fan
drive_fan-Kept now s = either (Kept s) s.keying.key_down_active same (
    either (Kept s)
      (ltb_ℤ (pos 0) s.fan.pwm_cur
        && leb (as_unsigned s.fan.hold_time) (elapsed now s.fan.hold_start_millis))
      same
      (either (Kept s) (not (ltb_ℤ s.fan.pwm_cur (pos 255)) && not (is_hot s)) same
        (either (Kept s) (not (ltb_ℤ s.fan.low_pwm s.fan.pwm_cur) && is_hot s) same same)))
  where
    same : {f : Fan} {l : List Effect} → Kept s (record s { fan = f; effects = l })
    same = record { power = refl; digital = refl; temperature = refl }

release-same : (s : Sketch) → (release s).power ≡ s.power × (release s).digital ≡ s.digital
unfolding release
release-same s = elim (Bool-cases (ltb_ℤ s.temperature.temp_deg fan_high_temp)) [
  | inl e ↦ rw e (refl, refl)
  | inr e ↦ rw e (refl, refl)
]

lock_out-Locked : (b : Bool) (s : Sketch) → Locked b s (if b then lock_out s else s)
unfolding lock_out
lock_out-Locked true s = (refl, refl, refl)
lock_out-Locked false s = (refl, refl, refl)

-- Behind CheckFanState the power is off, no digital message is on and the time to its end is 0 if
-- the reading is unsafe: the temperature is at its limit, or the SWR is above 3 at a forward
-- reading of at least 1. Otherwise all three are as before.
pub check_fan_state-Locked :
    (now : ℕ) (r : Reading) (s : Sketch) → Locked (is_unsafe r s) s (check_fan_state now r s)
unfolding check_fan_state
check_fan_state-Locked now r s =
    let d = drive_fan-Kept now s in
    let (p, g) =
      release-same
        (if is_unsafe r (drive_fan now s) then lock_out (drive_fan now s) else drive_fan now s) in
    let l = lock_out-Locked (is_unsafe r (drive_fan now s)) (drive_fan now s) in
    let u = ap (λ t. is_danger r t) d.temperature in
    (
      ap (λ p. p.tx_power_on) p ∙ l.0 ∙ (λ i. if u i then false else (d.power i).tx_power_on),
      ap (λ g. g.digi_tx_on) g ∙ l.1 ∙ (λ i. if u i then false else (d.digital i).digi_tx_on),
      ap (λ g. g.ftx_millis_to_end) g
          ∙ l.2
          ∙ (λ i. if u i then pos 0 else (d.digital i).ftx_millis_to_end),
    )
  where
    is_danger : Reading → Temperature → Bool
    is_danger r t =
        not (ltb_ℤ t.temp_deg t.tx_max_temp) || leb swr_fwd_min r.avg_fwd && ltb swr_max r.swr
