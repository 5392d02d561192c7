-- ===== src/Transmitter/Rtty/Ends.antt =====
-- TXlink4_Nano/RTTY.ino: the transmission of the texts ends, whatever comes over the line and is
-- measured meanwhile.
use sdr_plugin_txlink_wsjt_x.Base.{
  ℕ, zero, suc, ◌+◌, ◌-◌, ◌*◌, ◌%◌, ◌≤◌, ◌<◌, ◌≡◌, refl, ◌⊎◌, inl, inr, List, [], ◌∷◌, Bool, true,
  false, not, ◌||◌, Option, none, some, Bytes, arith, ◌==◌, length, if◌then◌else◌, Bool-cases,
}
use sdr_plugin_txlink_wsjt_x.Transmitter.{Sketch}
use sdr_plugin_txlink_wsjt_x.Transmitter.Texts.{Fifo, slot, next, dequeue_message}
use sdr_plugin_txlink_wsjt_x.Transmitter.Texts.Ring.{IsRing, slot-short, call, call-IsRing, dequeue}
use sdr_plugin_txlink_wsjt_x.Transmitter.Commands.{set_frequency_hz_x10}
use sdr_plugin_txlink_wsjt_x.Transmitter.Serial.Sound.{IsSound, process_serial_in-IsSound}
use sdr_plugin_txlink_wsjt_x.Transmitter.Baudot.{
  get_baudot_code, shift_for, cr_code, lf_code, letters_shift_code,
}
use sdr_plugin_txlink_wsjt_x.Transmitter.Serial.{process_serial_in}
use sdr_plugin_txlink_wsjt_x.Transmitter.Safety.{Reading, swr_measure}
use sdr_plugin_txlink_wsjt_x.Transmitter.Safety.Stable.{swr_measure-kept}
use sdr_plugin_txlink_wsjt_x.Transmitter.Rtty.{
  Air, Service, serial_in, measure, serve, serve_bit, tail, tone_x10, transmit_bit, transmit_data,
  bit_of, transmit_baudot_code, transmit_codes, transmit_char, char_at, transmit_text, with_queue,
  separate, transmit_texts, finish, preamble, key_up, transmit_from, transmit_rtty_string,
}

-- How many texts wait.
abbrev pub count : Fifo → ℕ
count q = (q.queue_head + 4 - q.queue_tail) % 4

-- What is still to come: four for each bit with background work, one for each text.
abbrev pub pending : Air → ℕ
pending a = 4 * length a.arrivals + count a.sketch.queue

record Steady (m : ℕ) (a : Air) : Type 0 where
  sound : IsSound a.sketch
  bound : pending a ≤ m

set_frequency_hz_x10-IsSound :
    (f : ℕ) (b : Bool) (s : Sketch) → IsSound s → IsSound (set_frequency_hz_x10 f b s)
unfolding set_frequency_hz_x10
set_frequency_hz_x10-IsSound f b s v = record { holds = v.holds }

-- Whatever is measured.
swr_measure-IsSound :
    (now : ℕ) (r : Reading) (s : Sketch) → IsSound s → IsSound (swr_measure now r s)
swr_measure-IsSound =
    swr_measure-kept IsSound (λ s d f t n l v. record { holds = v.holds })
      (λ s v. record { holds = v.holds })

serve-IsSound : (l : List Service) (s : Sketch) → IsSound s → IsSound (serve l s)
unfolding serve
serve-IsSound [] s v = v
serve-IsSound (serial_in x ∷ l) s v =
    serve-IsSound l (process_serial_in x s) (process_serial_in-IsSound x s v)
serve-IsSound (measure now r ∷ l) s v =
    serve-IsSound l (swr_measure now r s) (swr_measure-IsSound now r s v)

serve_bit-Steady :
    (m : ℕ) (l : List (List Service)) (s : Sketch)
    → IsSound s
    → 4 * length l + count s.queue ≤ m
    → IsSound (serve_bit l s) × 4 * length (tail l) + count (serve_bit l s).queue ≤ m
unfolding serve_bit
serve_bit-Steady m [] s v h = (v, h)
serve_bit-Steady m (x ∷ l) s v h = (serve-IsSound x s v, omega arith)

transmit_bit-Steady : (m : ℕ) (b : Bool) (a : Air) → Steady m a → Steady m (transmit_bit b a)
unfolding transmit_bit set_frequency_hz_x10
transmit_bit-Steady m b a st =
    let r =
      serve_bit-Steady m a.arrivals
        (set_frequency_hz_x10 (tone_x10 b a.sketch.cur_freq) true a.sketch)
        (set_frequency_hz_x10-IsSound _ true a.sketch st.sound) st.bound in
    record { sound = r.0; bound = r.1 }

transmit_data-Steady :
    (m left i code : ℕ) (a : Air) → Steady m a → Steady m (transmit_data left i code a)
unfolding transmit_data
transmit_data-Steady m zero i code a st = st
transmit_data-Steady m (suc left) i code a st =
    transmit_data-Steady m left (i + 1) code _ (transmit_bit-Steady m (bit_of code i) a st)

transmit_baudot_code-Steady :
    (m code : ℕ) (a : Air) → Steady m a → Steady m (transmit_baudot_code code a)
unfolding transmit_baudot_code
transmit_baudot_code-Steady m code a st =
    transmit_bit-Steady m true _
      (transmit_data-Steady m 5 0 code _ (transmit_bit-Steady m false a st))

transmit_codes-Steady : (m : ℕ) (l : List ℕ) (a : Air) → Steady m a → Steady m (transmit_codes l a)
unfolding transmit_codes
transmit_codes-Steady m [] a st = st
transmit_codes-Steady m (k ∷ l) a st =
    transmit_codes-Steady m l _ (transmit_baudot_code-Steady m k a st)

transmit_char-Steady : (m c : ℕ) (a : Air) → Steady m a → Steady m (transmit_char c a)
unfolding transmit_char
transmit_char-Steady m c a st =
    let shifted =
      transmit_codes-Steady m (shift_for (get_baudot_code c) a.current_shift_ltrs) a st in
    transmit_baudot_code-Steady m _ _ (record { sound = shifted.sound; bound = shifted.bound })

char_at-end : (s : Bytes) (pos : ℕ) → length s ≤ pos → char_at s pos ≡ 0
unfolding char_at
char_at-end [] pos h = refl
char_at-end (c ∷ s) zero h = absurd (omega arith)
char_at-end (c ∷ s) (suc pos) h = char_at-end s pos (omega arith)

-- A loop has ended, and not by its fuel.
abbrev Ended : ℕ → Option Air → Type 0
Ended m o = (b : Air) × (o ≡ some b × Steady m b)

transmit_text-Ended :
    (m fuel i pos : ℕ) (a : Air)
    → 72 ≤ fuel + pos
    → pos ≤ 71
    → Steady m a
    → Ended m (transmit_text fuel i pos a)
unfolding transmit_text
transmit_text-Ended m zero i pos a h p st = absurd (omega arith)
transmit_text-Ended m (suc fuel) i pos a h p st =
    elim (Bool-cases (c == 0 || not a.sketch.digital.digi_tx_on)) [
      | inl stop ↦ (a, (rw stop refl, st))
      | inr more ↦
          let r =
            transmit_text-Ended m fuel i (pos + 1) (transmit_char c a) (omega arith) (inside more)
              (transmit_char-Steady m c a st) in
          (r.0, (rw more r.1.0, r.1.1))
    ]
  where
    s : Bytes
    s = slot a.sketch.queue.message_buffer i

    c : ℕ
    c = char_at s pos

    inside : (c == 0 || not a.sketch.digital.digi_tx_on) ≡ false → pos + 1 ≤ 71
    inside more =
        let at_end = char_at-end s pos in
        let short = slot-short a.sketch.queue.message_buffer i st.sound.holds.4.short in
        ground arith

dequeue_message-count :
    (q : Fifo)
    → IsRing q
    → ((dequeue_message q).1 ≡ none × count (dequeue_message q).0 ≡ count q)
      ⊎ ((i : ℕ) × ((dequeue_message q).1 ≡ some i × count (dequeue_message q).0 + 1 ≡ count q))
unfolding dequeue_message next
dequeue_message-count q v = elim (Bool-cases (q.queue_head == q.queue_tail)) [
  | inl e ↦ inl (rw e (refl, refl))
  | inr e ↦ inr (q.queue_tail, rw e (refl, let a = v.head in let b = v.tail in ground arith))
]

with_queue-IsSound :
    (a : Air) → IsSound a.sketch → IsSound (with_queue (dequeue_message a.sketch.queue).0 a).sketch
unfolding call
with_queue-IsSound a v = record {
  holds =
      (v.holds.0, v.holds.1, v.holds.2, v.holds.3, call-IsRing dequeue a.sketch.queue v.holds.4);
}

weaker : (m n : ℕ) (o : Option Air) → m ≤ n → Ended m o → Ended n o
weaker m n o h (b, (e, st)) = (b, (e, record { sound = st.sound; bound = omega (arith, st.bound) }))

-- The text behind the one that was sent, if the rest of the loop ends.
next_text-Ended :
    (literal m fuel : ℕ) (b : Air)
    → m < suc fuel
    → Steady m b
    → ((n : ℕ) (text : Option ℕ) (a : Air)
        → n < fuel
        → Steady n a
        → Ended n (transmit_texts literal fuel text a))
    → let d : Fifo × Option ℕ = dequeue_message b.sketch.queue in
      Ended m (transmit_texts literal fuel d.1 (separate literal d.1 (with_queue d.0 b)))
unfolding transmit_texts separate
next_text-Ended literal m fuel b h st rest =
    let sound = with_queue-IsSound b st.sound in
    elim (dequeue_message-count b.sketch.queue st.sound.holds.4) [
      | inl (e, same) ↦ rw e (
        with_queue (dequeue_message b.sketch.queue).0 b,
        (refl, record { sound = sound; bound = omega (arith, st.bound, same) }),
      )
      | inr (i, (e, less)) ↦
          let taken = with_queue (dequeue_message b.sketch.queue).0 b in
          let fewer : Steady (m - 1) taken = record {
            sound = sound;
            bound = omega (arith, st.bound, less);
          } in
          rw e (
            weaker (m - 1) m _ (omega arith) (
              rest (m - 1) (some i) _ (omega (arith, st.bound, less))
                (transmit_baudot_code-Steady (m - 1) _ taken fewer)))
    ]

transmit_texts-Ended :
    (literal m fuel : ℕ) (text : Option ℕ) (a : Air)
    → m < fuel
    → Steady m a
    → Ended m (transmit_texts literal fuel text a)
unfolding transmit_texts
transmit_texts-Ended literal m fuel none a h st = (a, (refl, st))
transmit_texts-Ended literal m zero (some i) a h st = absurd (omega arith)
transmit_texts-Ended literal m (suc fuel) (some i) a h st =
    let (b, (e, kept)) = transmit_text-Ended m 72 i 0 a (omega arith) (omega arith) st in
    rw e (
      next_text-Ended literal m fuel b h kept
        (λ n text c k s. transmit_texts-Ended literal n fuel text c k s))

finish-Steady : (m : ℕ) (a : Air) → Steady m a → Steady m (finish a)
unfolding finish
finish-Steady m a st =
    let lined = transmit_codes-Steady m (cr_code ∷ lf_code ∷ []) a st in
    let closed =
      transmit_codes-Steady m
        (if (transmit_codes (cr_code ∷ lf_code ∷ []) a).current_shift_ltrs
          then []
          else letters_shift_code ∷ [])
        (transmit_codes (cr_code ∷ lf_code ∷ []) a) lined in
    record { sound = closed.sound; bound = closed.bound }

transmit_from-Ended :
    (literal m : ℕ) (text : Option ℕ) (a : Air)
    → Steady m a
    → Ended m (transmit_from literal (m + 1) text a)
unfolding transmit_from
transmit_from-Ended literal m none a st = (a, (refl, st))
transmit_from-Ended literal m (some i) a st =
    let started = transmit_codes-Steady m preamble a st in
    let shifted : Steady m (record (transmit_codes preamble a) { current_shift_ltrs = true }) =
      record { sound = started.sound; bound = started.bound } in
    let (b, (e, kept)) = transmit_texts-Ended literal m (m + 1) (some i) _ (omega arith) shifted in
    (finish b, (rw e refl, finish-Steady m b kept))

-- From sound globals transmitRttyString ends, whatever comes over the line and is measured during
-- the bits: fuel for four texts for each bit with background work and one for each waiting text,
-- and one more, is enough. Then the key is up and the globals are sound.
pub transmit_rtty_string-ends :
    (literal : ℕ) (a : Air)
    → IsSound a.sketch
    → (b : Air) × (transmit_rtty_string literal (pending a + 1) a ≡ some b
        × b.sketch.digital.digi_tx_on ≡ false
        × IsSound b.sketch)
unfolding transmit_rtty_string key_up set_frequency_hz_x10
transmit_rtty_string-ends literal a v =
    let (b, (e, kept)) =
      transmit_from-Ended literal (pending a) (dequeue_message a.sketch.queue).1
        (with_queue (dequeue_message a.sketch.queue).0 a)
        (record { sound = with_queue-IsSound a v; bound = not_more }) in
    (key_up b, (rw e refl, refl, record { holds = kept.sound.holds }))
  where
    not_more : pending (with_queue (dequeue_message a.sketch.queue).0 a) ≤ pending a
    not_more = elim (dequeue_message-count a.sketch.queue v.holds.4) [
      | inl (e, same) ↦ omega (arith, same)
      | inr (i, (e, less)) ↦ omega (arith, less)
    ]
