-- ===== src/Transmitter/Gauss/Transition.antt =====
-- TXlink4_Nano/TXlink4_Nano.ino: a transition stays between the two tones and ends on the second.
use native.Mathlib.Nat.{mul-le-mul_right}
use sdr_plugin_txlink_wsjt_x.Base.{
  ℕ, zero, suc, ◌+◌, ◌-◌, ◌*◌, ◌/◌, ◌%◌, ◌^◌, ◌≤◌, ◌<◌, ◌≡◌, refl, ap, ◌⊎◌, inl, inr, List, [], ◌∷◌,
  ◌++◌, arith, pos, negsuc, Bool, true, false, Bool-cases, if◌then◌else◌, ltb, leb, length,
  to_signed,
}
use sdr_plugin_txlink_wsjt_x.Transmitter.{Tones}
use sdr_plugin_txlink_wsjt_x.Transmitter.Commands.{ft8_tones, ft4_tones}
use sdr_plugin_txlink_wsjt_x.Transmitter.Gauss.{
  gaussian_g_scaled, ftw_incr, interpolate, scaled_change, add_change, transition_ftw, inner_steps,
  transition_steps, transition,
}

change_up :
    (last next : ℕ)
    → last ≤ next
    → next < 2 ^ 31
    → to_signed 4 ((next + 2 ^ 32 - last) % 2 ^ 32) ≡ pos (next - last)
change_up last next h k =
    let small : (next + 2 ^ 32 - last) % 2 ^ 32 ≡ next - last = omega arith in
    let low : ltb (2 * (next - last)) (256 ^ 4) ≡ true = ground arith in rw (small, low) refl

change_down :
    (last next : ℕ)
    → next < last
    → last < 2 ^ 31
    → to_signed 4 ((next + 2 ^ 32 - last) % 2 ^ 32) ≡ negsuc (last - next - 1)
change_down last next h k =
    let high : ltb (2 * ((next + 2 ^ 32 - last) % 2 ^ 32)) (256 ^ 4) ≡ false = ground arith in
    rw high (ap negsuc (omega arith))

-- A word between two tones.
abbrev pub Between : ℕ → ℕ → ℕ → Type 0
Between last next x = (last ≤ x × x ≤ next) ⊎ (next ≤ x × x ≤ last)

transition_ftw-up :
    (last next fraction : ℕ)
    → last ≤ next
    → next < 2 ^ 31
    → fraction ≤ 65535
    → last ≤ transition_ftw last next fraction × transition_ftw last next fraction ≤ next
unfolding transition_ftw scaled_change add_change
transition_ftw-up last next fraction h k f =
    let part = mul-le-mul_right (next - last) f in rw (change_up last next h k) (omega arith)

transition_ftw-down :
    (last next fraction : ℕ)
    → next < last
    → last < 2 ^ 31
    → fraction ≤ 65535
    → next ≤ transition_ftw last next fraction × transition_ftw last next fraction ≤ last
unfolding transition_ftw scaled_change add_change
transition_ftw-down last next fraction h k f = rw (change_down last next h k) (
    by_size (fraction * suc (last - next - 1))
      (omega (arith, mul-le-mul_right (suc (last - next - 1)) f)))
  where
    by_size :
        (down : ℕ)
        → down ≤ 65535 * (last - next)
        → let x : ℕ = add_change last (
            if leb down 32768
            then pos ((32768 - down) / 65536)
            else negsuc ((down - 32768 - 1) / 65536)) in
          next ≤ x × x ≤ last
    by_size down b = elim (Bool-cases (leb down 32768)) [
      | inl e ↦ rw e (ground arith)
      | inr e ↦ rw e (ground arith)
    ]

transition_ftw-Between :
    (last next fraction : ℕ)
    → last < 2 ^ 31
    → next < 2 ^ 31
    → fraction ≤ 65535
    → Between last next (transition_ftw last next fraction)
transition_ftw-Between last next fraction h k f = elim (order last next) [
  | inl up ↦ inl (transition_ftw-up last next fraction up k f)
  | inr down ↦ inr (transition_ftw-down last next fraction down h f)
]
  where
    order : (a b : ℕ) → (a ≤ b) ⊎ (b < a)
    order a b = omega arith

-- Every word of a list lies between two tones.
pub data AllBetween (last next : ℕ) : List ℕ → Type 0 where
  no_word : AllBetween last next []
  word :
      {x : ℕ} {l : List ℕ}
      → Between last next x
      → AllBetween last next l
      → AllBetween last next (x ∷ l)

AllBetween-append :
    {last next : ℕ} {a b : List ℕ}
    → AllBetween last next a
    → AllBetween last next b
    → AllBetween last next (a ++ b)
AllBetween-append no_word q = q
AllBetween-append (word w p) q = word w (AllBetween-append p q)

interpolate-bound : (p c f h : ℕ) → interpolate p c f h ≤ 65535
unfolding interpolate
interpolate-bound p c f h = omega arith

module _ (last next : ℕ) (h : last < 2 ^ 31) (k : next < 2 ^ 31) where
  inner_steps-AllBetween :
      (previous current factor left i : ℕ)
      → AllBetween last next (inner_steps last next previous current factor left i)
  unfolding inner_steps
  inner_steps-AllBetween previous current factor zero i = no_word
  inner_steps-AllBetween previous current factor (suc left) i =
      word
        (transition_ftw-Between last next _ h k (interpolate-bound previous current factor (suc i)))
        (inner_steps-AllBetween previous current factor left (suc i))

  transition_steps-AllBetween :
      (factor previous : ℕ) (table : List ℕ)
      → AllBetween last next (transition_steps last next factor previous table)
  unfolding transition_steps
  transition_steps-AllBetween factor previous [] = no_word
  transition_steps-AllBetween factor previous (current ∷ table) =
      AllBetween-append (inner_steps-AllBetween previous current factor factor 0)
        (transition_steps-AllBetween factor current table)

  -- If both words are below 2 ^ 31, every word that a transition sends lies between them.
  pub transition-AllBetween : (t : Tones) → AllBetween last next (transition t last next)
  unfolding transition
  transition-AllBetween t = transition_steps-AllBetween t.g_tran_interp_factor 0 gaussian_g_scaled

pub last_of : ℕ → List ℕ → ℕ
last_of x [] = x
last_of x (y ∷ l) = last_of y l

transition_ftw-end :
    (last next fraction : ℕ)
    → 65533 ≤ fraction
    → fraction ≤ 65535
    → last < 2 ^ 31
    → next < 2 ^ 31
    → next ≤ last + 10_000
    → last ≤ next + 10_000
    → transition_ftw last next fraction ≡ next
unfolding transition_ftw scaled_change add_change
transition_ftw-end last next fraction low high a b c d = elim (order last next) [
  | inl up ↦
      rw (change_up last next up b)
        (omega (arith, mul-le-mul_right (next - last) low, mul-le-mul_right (next - last) high))
  | inr down ↦ rw (change_down last next down a) (
      by_size (fraction * suc (last - next - 1))
        (omega (arith, mul-le-mul_right (suc (last - next - 1)) low))
        (omega (arith, mul-le-mul_right (suc (last - next - 1)) high)) down)
]
  where
    by_size :
        (down : ℕ)
        → 65533 * (last - next) ≤ down
        → down ≤ 65535 * (last - next)
        → next < last
        → add_change last (
            if leb down 32768
            then pos ((32768 - down) / 65536)
            else negsuc ((down - 32768 - 1) / 65536))
          ≡ next
    by_size down l u e = elim (Bool-cases (leb down 32768)) [
      | inl f ↦ rw f (ground arith)
      | inr f ↦ rw f (ground arith)
    ]

    order : (a b : ℕ) → (a ≤ b) ⊎ (b < a)
    order a b = omega arith

-- If both words are below 2 ^ 31 and at most 10000 apart, a transition of FT8 or FT4 ends on the
-- second word and has as many steps as the mode says.
pub transition-end :
    (b : Bool) (last next : ℕ)
    → last < 2 ^ 31
    → next < 2 ^ 31
    → next ≤ last + 10_000
    → last ≤ next + 10_000
    → last_of last (transition (if b then ft4_tones else ft8_tones) last next) ≡ next
      × length (transition (if b then ft4_tones else ft8_tones) last next)
        ≡ (if b then ft4_tones else ft8_tones).g_tran_steps
unfolding transition transition_steps inner_steps interpolate last_of
transition-end true last next a b c d =
    (transition_ftw-end last next 65533 (omega arith) (omega arith) a b c d, refl)
transition-end false last next a b c d =
    (transition_ftw-end last next 65534 (omega arith) (omega arith) a b c d, refl)

-- Two numbers differ by at most 11/20 of `unit`.
abbrev pub Close : ℕ → ℕ → ℕ → Type 0
Close unit a b = 20 * a ≤ 20 * b + 11 * unit × 20 * b ≤ 20 * a + 11 * unit

-- @
pub ftw_incr-Close :
    (symbol : ℕ)
    → symbol ≤ 9
    → Close (4 * 180_000_000) (ftw_incr ft8_tones symbol * (4 * 180_000_000)) (symbol * 25 * 2 ^ 32)
      × Close
          (6 * 180_000_000)
          (ftw_incr ft4_tones symbol * (6 * 180_000_000))
          (symbol * 125 * 2 ^ 32)
unfolding ftw_incr
ftw_incr-Close symbol h = ((omega arith, omega arith), (omega arith, omega arith))
