-- ===== src/Transmitter/Rtty/Frames/Heard.antt =====
-- TXlink4_Nano/RTTY.ino: a text of the queue is heard by the receiver between two new lines.
use sdr_plugin_txlink_wsjt_x.Base.{
  ℕ, zero, suc, ◌+◌, ◌<◌, ◌≡◌, refl, ap, ◌∙◌, List, [], ◌∷◌, Bool, true, false, Option, some, Bytes,
  arith, ◌==◌, length,
}
use sdr_plugin_txlink_wsjt_x.Transmitter.Texts.{Fifo, slot}
use sdr_plugin_txlink_wsjt_x.Transmitter.Baudot.{
  BaudotEntry, get_baudot_code, shift_for, shift_after, codes_of_char, codes_of_text,
}
use sdr_plugin_txlink_wsjt_x.Transmitter.Baudot.Receiver.{HasNoNul, goes_on, shift_behind}
use sdr_plugin_txlink_wsjt_x.Transmitter.Rtty.{
  Air, transmit_codes, transmit_char, char_at, transmit_text,
}
use sdr_plugin_txlink_wsjt_x.Transmitter.Rtty.Frames.{
  IsSilent, frames, frames-append, Quiet, Quiet-refl, Quiet-append, transmit_codes-Quiet,
}

abbrev pub shifted : Bool → Air → Air
shifted letters a = record a { current_shift_ltrs = letters }

-- The same bits from and to another shift.
pub Quiet-shifted :
    {l : List Bool} {a b : Air} (s : Bool) → Quiet l a b → Quiet l (shifted s a) (shifted s b)
Quiet-shifted s p = record {
  keyed = p.keyed;
  silent = p.silent;
  queue = p.queue;
  digital = p.digital;
  shift = refl;
}

transmit_char-Quiet :
    (c : ℕ) (a : Air)
    → IsSilent a
    → Quiet
        (frames (codes_of_char c a.current_shift_ltrs))
        (shifted (shift_after (get_baudot_code c) a.current_shift_ltrs) a)
        (transmit_char c a)
unfolding transmit_char codes_of_char transmit_codes
transmit_char-Quiet c a e =
    let entry : BaudotEntry = get_baudot_code c in
    let after : Bool = shift_after entry a.current_shift_ltrs in
    let first = shift_for entry a.current_shift_ltrs in
    let p = Quiet-shifted after (transmit_codes-Quiet first a e) in
    rw (frames-append first (entry.code ∷ [])) (
      Quiet-append p
        (transmit_codes-Quiet (entry.code ∷ []) (shifted after (transmit_codes first a)) p.silent))

-- The text was keyed.
abbrev pub Keyed : Bytes → Air → Option Air → Type 0
Keyed s a o =
    (b : Air) × (o ≡ some b
      × Quiet (frames (codes_of_text s a.current_shift_ltrs))
          (shifted (shift_behind s a.current_shift_ltrs) a) b)

start :
    (t s : Bytes) (pos : ℕ)
    → ((k : ℕ) → char_at t (pos + k) ≡ char_at s k)
    → char_at t pos ≡ char_at s 0
start t s pos view = let same : pos + 0 ≡ pos = omega arith in rw same at (view 0)

transmit_text-step :
    (fuel i pos c : ℕ) (a : Air)
    → char_at (slot a.sketch.queue.message_buffer i) pos ≡ c
    → 0 < c
    → a.sketch.digital.digi_tx_on ≡ true
    → transmit_text (suc fuel) i pos a ≡ transmit_text fuel i (pos + 1) (transmit_char c a)
unfolding transmit_text
transmit_text-step fuel i pos c a here z d =
    let char : (c == 0) ≡ false = ground arith in rw (here, char, d) refl

transmit_text-stop :
    (fuel i pos : ℕ) (a : Air)
    → char_at (slot a.sketch.queue.message_buffer i) pos ≡ 0
    → transmit_text (suc fuel) i pos a ≡ some a
unfolding transmit_text
transmit_text-stop fuel i pos a e = rw e refl

then_text :
    (c : ℕ) (s : Bytes) (a a' b : Air)
    → Quiet
        (frames (codes_of_char c a.current_shift_ltrs))
        (shifted (shift_after (get_baudot_code c) a.current_shift_ltrs) a)
        a'
    → Quiet
        (frames (codes_of_text s a'.current_shift_ltrs))
        (shifted (shift_behind s a'.current_shift_ltrs) a')
        b
    → Quiet
        (frames (codes_of_text (c ∷ s) a.current_shift_ltrs))
        (shifted (shift_behind (c ∷ s) a.current_shift_ltrs) a)
        b
unfolding codes_of_text shift_behind
then_text c s a a' b one rest =
    let after : Bool = shift_after (get_baudot_code c) a.current_shift_ltrs in
    let rest' : Quiet (frames (codes_of_text s after)) (shifted (shift_behind s after) a') b =
      rw one.shift at rest in
    rw (frames-append (codes_of_char c a.current_shift_ltrs) (codes_of_text s after))
      (Quiet-append (Quiet-shifted (shift_behind s after) one) rest')

pub transmit_text-Keyed :
    (s t : Bytes) (fuel i pos : ℕ) (a : Air)
    → HasNoNul s
    → length s < fuel
    → ((k : ℕ) → char_at t (pos + k) ≡ char_at s k)
    → slot a.sketch.queue.message_buffer i ≡ t
    → IsSilent a
    → a.sketch.digital.digi_tx_on ≡ true
    → Keyed s a (transmit_text fuel i pos a)
unfolding codes_of_text shift_behind char_at frames
transmit_text-Keyed [] t zero i pos a n h view e q d = absurd (omega arith)
transmit_text-Keyed (c ∷ s) t zero i pos a n h view e q d = absurd (omega arith)
transmit_text-Keyed [] t (suc fuel) i pos a n h view e q d =
    let last : char_at (slot a.sketch.queue.message_buffer i) pos ≡ 0 =
      rw e (start t [] pos view) in
    (a, (transmit_text-stop fuel i pos a last, Quiet-refl a q))
transmit_text-Keyed (c ∷ s) t (suc fuel) i pos a (goes_on z n) h view e q d =
    let here : char_at (slot a.sketch.queue.message_buffer i) pos ≡ c =
      rw e (start t (c ∷ s) pos view) in
    let one = transmit_char-Quiet c a q in
    let (b, (r, rest)) =
      transmit_text-Keyed s t fuel i (pos + 1) (transmit_char c a) n (omega arith) (further view)
        (ap (λ (f : Fifo). slot f.message_buffer i) one.queue ∙ e) one.silent
        (ap (λ g. g.digi_tx_on) one.digital ∙ d) in
    (
      b,
      (
        transmit_text-step fuel i pos c a here z d ∙ r,
        then_text c s a (transmit_char c a) b one rest,
      ),
    )
  where
    further :
        ((k : ℕ) → char_at t (pos + k) ≡ char_at (c ∷ s) k)
        → (k : ℕ) → char_at t (pos + 1 + k) ≡ char_at s k
    further view k = let on : pos + 1 + k ≡ pos + suc k = omega arith in rw on (view (suc k))
