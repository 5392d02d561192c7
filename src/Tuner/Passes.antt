-- ===== src/Tuner/Passes.antt =====
-- Clicks that move a frequency, and clicks that press keys.
use sdr_plugin_txlink_wsjt_x.Base.{
  ℕ, ◌+◌, ◌≤◌, ◌<◌, ◌≡◌, refl, sym, ap, ◌∙◌, ◌⊎◌, inl, inr, List, [], ◌∷◌, ◌++◌, Option, none, some,
  Bool, true, false, arith, ℤ, pos, negsuc, pos_part, neg_part, ◌+ℤ◌, ◌-ℤ◌, ltb, Bool-cases, ◌==◌,
  if◌then◌else◌,
}
use sdr_plugin_txlink_wsjt_x.Settings.{split_none, split_ft8}
use sdr_plugin_txlink_wsjt_x.Form.{Controller}
use sdr_plugin_txlink_wsjt_x.Form.Frequency.{eq_ℤ}
use sdr_plugin_txlink_wsjt_x.Tuner.{
  ctrl_shift_f11, ctrl_shift_f12, Tuner, Pass, delta_of, read_click, read_clicks, tune, press_keys,
  pass,
}

ℤ-ext : (x y : ℤ) → pos_part x + neg_part y ≡ pos_part y + neg_part x → x ≡ y
ℤ-ext (pos m) (pos n) e = ap pos (omega arith)
ℤ-ext (pos m) (negsuc n) e = absurd (omega arith)
ℤ-ext (negsuc m) (pos n) e = absurd (omega arith)
ℤ-ext (negsuc m) (negsuc n) e = ap negsuc (omega arith)

eq_ℤ-≡ : (x y : ℤ) → eq_ℤ x y ≡ true → x ≡ y
eq_ℤ-≡ x y e = ℤ-ext x y (ground (arith, e))

-- What a sum is, by the parts.
sum_parts :
    (x y : ℤ)
    → pos_part (x +ℤ y) + (neg_part x + neg_part y) ≡ neg_part (x +ℤ y) + (pos_part x + pos_part y)
unfolding ◌+ℤ◌
sum_parts x y = ground arith

diff_parts :
    (x y : ℤ)
    → pos_part (x -ℤ y) + (neg_part x + pos_part y) ≡ neg_part (x -ℤ y) + (pos_part x + neg_part y)
unfolding ◌-ℤ◌
diff_parts x y = ground arith

add_assoc : (x y z : ℤ) → (x +ℤ y) +ℤ z ≡ x +ℤ (y +ℤ z)
add_assoc x y z =
    ℤ-ext ((x +ℤ y) +ℤ z) (x +ℤ (y +ℤ z))
      (omega (arith, sum_parts x y, sum_parts (x +ℤ y) z, sum_parts y z, sum_parts x (y +ℤ z)))

add_zero : (x : ℤ) → x +ℤ pos 0 ≡ x
add_zero x = ℤ-ext (x +ℤ pos 0) x (omega (arith, sum_parts x (pos 0)))

-- What one byte of the knob adds.
abbrev pub click : ℕ → ℕ → ℤ
click delta c = if c == b'>' then pos delta else if c == b'<' then pos 0 -ℤ pos delta else pos 0

-- What the bytes of a pass add.
abbrev pub moves : ℕ → List (Option ℕ) → ℤ
moves delta [] = pos 0
moves delta (none ∷ rs) = moves delta rs
moves delta (some c ∷ rs) = click delta c +ℤ moves delta rs

read_click-click : (delta c : ℕ) (s : ℤ × ℤ) → (read_click delta c s).1 ≡ s.1 +ℤ click delta c
unfolding read_click
read_click-click delta c (steps, incr) = elim (Bool-cases (c == b'>')) [
  | inl e ↦ rw e refl
  | inr e ↦ elim (Bool-cases (c == b'<')) [
    | inl f ↦
        rw (e, f)
          (ℤ-ext (incr -ℤ pos delta) (incr +ℤ (pos 0 -ℤ pos delta)) (
            omega (
              arith,
              diff_parts incr (pos delta),
              sum_parts incr (pos 0 -ℤ pos delta),
              diff_parts (pos 0) (pos delta),
            )))
    | inr f ↦ rw (e, f) (sym (add_zero incr))
  ]
]

read_clicks-moves :
    (delta : ℕ) (rs : List (Option ℕ)) (s : ℤ × ℤ)
    → (read_clicks delta rs s).1 ≡ s.1 +ℤ moves delta rs
unfolding read_clicks
read_clicks-moves delta [] s = sym (add_zero s.1)
read_clicks-moves delta (none ∷ rs) s = read_clicks-moves delta rs s
read_clicks-moves delta (some c ∷ rs) s =
    read_clicks-moves delta rs (read_click delta c s)
    ∙ ap (λ i. i +ℤ moves delta rs) (read_click-click delta c s)
    ∙ add_assoc s.1 (click delta c) (moves delta rs)

-- All the moves of some passes.
abbrev pub total : ℕ → List Pass → ℤ
total delta [] = pos 0
total delta (x ∷ xs) = moves delta x.reads +ℤ total delta xs

-- The passes in turn, until the loop is left.
abbrev pub passes : List Pass → Tuner → Tuner
passes [] t = t
passes (x ∷ xs) t =
    let y : Tuner × Bool = pass x t in let rest : Tuner = passes xs y.0 in if y.1 then y.0 else rest

-- Passes without a split and without an exit request.
abbrev pub Unsplit : List Pass → Type 0
Unsplit [] = Unit {0}
Unsplit (x ∷ xs) = ((x.split_mode ≡ split_none) × (x.exit_request ≡ false)) × Unsplit xs

-- What a pass without a split does, by its moves.
abbrev pub Moved : ℤ → Tuner → Tuner → Type 0
Moved m t t' =
    (t'.controller ≡ record (t.controller) { vfo0 = t.controller.vfo0 +ℤ m })
    × (t'.freq_incr ≡ pos 0)
    × (t'.keys ≡ t.keys)

pass-Moved :
    (x : Pass) (t : Tuner)
    → x.split_mode ≡ split_none
    → x.exit_request ≡ false
    → t.freq_incr ≡ pos 0
    → ((pass x t).1 ≡ false)
      × Moved (moves (delta_of t.controller.demodulator) x.reads) t (pass x t).0
unfolding pass tune press_keys
pass-Moved x t mode stay zero_incr =
    let delta = delta_of t.controller.demodulator in
    let read = read_clicks delta x.reads (t.encoder_steps, t.freq_incr) in
    let m = moves delta x.reads in
    let start : pos 0 +ℤ m ≡ m = ℤ-ext (pos 0 +ℤ m) m (omega (arith, sum_parts (pos 0) m)) in
    let same : read.1 ≡ m =
      read_clicks-moves delta x.reads (t.encoder_steps, t.freq_incr)
      ∙ ap (λ i. i +ℤ m) zero_incr
      ∙ start in
    elim (Bool-cases (eq_ℤ read.1 (pos 0))) [
      | inl e ↦
          let nothing = eq_ℤ-≡ read.1 (pos 0) e in
          rw e (
            refl,
            (
              ap (λ v. record (t.controller) { vfo0 = v })
                  (sym (add_zero t.controller.vfo0)
                    ∙ ap (◌+ℤ◌ t.controller.vfo0) (sym nothing ∙ same)),
              nothing,
              refl,
            ),
          )
      | inr e ↦
          rw (e, stay, mode)
            (
              refl,
              (ap (λ i. record (t.controller) { vfo0 = t.controller.vfo0 +ℤ i }) same, refl, refl),
            )
    ]

passes_step :
    (x : Pass) (xs : List Pass) (t : Tuner)
    → (pass x t).1 ≡ false
    → passes (x ∷ xs) t ≡ passes xs (pass x t).0
passes_step x xs t e = ap (λ (b : Bool). if b then (pass x t).0 else passes xs (pass x t).0) e

-- Without a split and an exit request, and from an increment of 0: over any number of passes VRX 0
-- ends at its first frequency plus all the moves of the clicks, nothing else of the controller
-- changes, no key is pressed, and the increment is 0.
pub passes-Moved :
    (xs : List Pass) (t : Tuner)
    → Unsplit xs
    → t.freq_incr ≡ pos 0
    → Moved (total (delta_of t.controller.demodulator) xs) t (passes xs t)
passes-Moved [] t u z =
    (ap (λ v. record (t.controller) { vfo0 = v }) (sym (add_zero t.controller.vfo0)), z, refl)
passes-Moved (x ∷ xs) t ((mode, stay), u) z =
    let (on, (moved, zero_incr, no_key)) = pass-Moved x t mode stay z in
    let t' = (pass x t).0 in
    let delta = delta_of t.controller.demodulator in
    let (c, i, k) = passes-Moved xs t' u zero_incr in
    let same_delta = ap (λ (y : Controller). delta_of y.demodulator) moved in
    let step = passes_step x xs t on in
    (
      ap (λ (y : Tuner). y.controller) step
          ∙ c
          ∙ ap (λ n. record (t'.controller) { vfo0 = t'.controller.vfo0 +ℤ total n xs }) same_delta
          ∙ ap (λ (y : Controller). record y { vfo0 = y.vfo0 +ℤ total delta xs }) moved
          ∙ ap (λ v. record (t.controller) { vfo0 = v })
              (add_assoc t.controller.vfo0 (moves delta x.reads) (total delta xs)),
      ap (λ (y : Tuner). y.freq_incr) step ∙ i,
      ap (λ (y : Tuner). y.keys) step ∙ k ∙ no_key,
    )

-- How a pass in data mode ends, by the steps counted.
abbrev pub Pressed : ℤ → Tuner → Tuner → Type 0
Pressed steps t t' =
    ((t'.keys ≡ t.keys) × (t'.encoder_steps ≡ steps))
    ⊎ (((800 < pos_part steps)
          × (t'.keys ≡ t.keys ++ ctrl_shift_f12 ∷ [])
          × (t'.encoder_steps ≡ pos 0))
        ⊎ ((800 < neg_part steps)
            × (t'.keys ≡ t.keys ++ ctrl_shift_f11 ∷ [])
            × (t'.encoder_steps ≡ pos 0)))

press_keys-Pressed :
    (t : Tuner)
    → ((press_keys t).controller ≡ t.controller)
      × Pressed t.encoder_steps t (press_keys t)
      × (pos_part (press_keys t).encoder_steps ≤ 800)
      × (neg_part (press_keys t).encoder_steps ≤ 800)
unfolding press_keys
press_keys-Pressed t = elim (Bool-cases (ltb 800 (pos_part t.encoder_steps))) [
  | inl e ↦ rw e (refl, inr (inl (ground (arith, e), refl, refl)), omega arith, omega arith)
  | inr e ↦ elim (Bool-cases (ltb 800 (neg_part t.encoder_steps))) [
    | inl f ↦ rw (e, f) (refl, inr (inr (ground (arith, f), refl, refl)), omega arith, omega arith)
    | inr f ↦ rw (e, f) (refl, inl (refl, refl), ground (arith, e), ground (arith, f))
  ]
]

-- In data mode and without an exit request, a pass leaves the controller alone; it presses no key
-- and keeps its steps, or presses one key behind more than 800 steps in its direction and counts
-- from 0; if its increment is not 0, at most 800 steps are left in each direction.
pub pass_ft8 :
    (x : Pass) (t : Tuner)
    → x.split_mode ≡ split_ft8
    → x.exit_request ≡ false
    → let read =
        read_clicks (delta_of t.controller.demodulator) x.reads (t.encoder_steps, t.freq_incr) in
      let t' = (pass x t).0 in
      (t'.controller ≡ t.controller)
      × Pressed read.0 t t'
      × ((read.1 ≡ pos 0) ⊎ ((pos_part t'.encoder_steps ≤ 800) × (neg_part t'.encoder_steps ≤ 800)))
unfolding pass tune
pass_ft8 x t mode stay =
    let read : ℤ × ℤ =
      read_clicks (delta_of t.controller.demodulator) x.reads (t.encoder_steps, t.freq_incr) in
    let counted = record t { encoder_steps = read.0; freq_incr = read.1 } in
    let (c, p, up, down) = press_keys-Pressed counted in
    elim (Bool-cases (eq_ℤ read.1 (pos 0))) [
      | inl e ↦ rw e (refl, inl (refl, refl), inl (eq_ℤ-≡ read.1 (pos 0) e))
      | inr e ↦ rw (e, stay, mode) (c, p, inr (up, down))
    ]
