-- ===== src/Transmitter/Rtty.antt =====
-- TXlink4_Nano/RTTY.ino: the texts of the queue are keyed, bit by bit. `arrivals` lists what is
-- done in the background during each of the next bits; behind its end nothing is done.
pub mod Frames
pub mod Ends
use sdr_plugin_txlink_wsjt_x.Base.{
  ℕ, zero, suc, ◌+◌, ◌-◌, ◌*◌, ◌/◌, ◌%◌, ◌^◌, List, [], ◌∷◌, ◌++◌, Bool, true, false, not, ◌&&◌,
  ◌||◌, Option, none, some, Bytes, ◌==◌, if◌then◌else◌,
}
use sdr_plugin_txlink_wsjt_x.Transmitter.{Sketch}
use sdr_plugin_txlink_wsjt_x.Transmitter.Texts.{Fifo, slot, dequeue_message}
use sdr_plugin_txlink_wsjt_x.Transmitter.Commands.{set_frequency_hz_x10}
use sdr_plugin_txlink_wsjt_x.Transmitter.Serial.{process_serial_in}
use sdr_plugin_txlink_wsjt_x.Transmitter.Safety.{Reading, swr_measure}
use sdr_plugin_txlink_wsjt_x.Transmitter.Baudot.{
  BaudotEntry, get_baudot_code, shift_for, shift_after, letters_shift_code, figures_shift_code,
  cr_code, lf_code,
}

-- A call of `ProcessSerialIn` with what it receives, or of `SWRmeasure` with the time and what the
-- average comes to if it ends. In the source the two take turns.
pub data Service : Type 0 where
  serial_in : Bytes → Service
  measure : ℕ → Reading → Service

-- The sketch on the air: the bits that were keyed, a mark as `true`.
pub record Air : Type 0 where
  pub sketch : Sketch
  pub current_shift_ltrs : Bool
  pub keyed : List Bool
  pub arrivals : List (List Service)

-- `MARK_FREQ` and `-SPACE_FREQ`: half of the shift of 170 Hz.
abbrev pub half_shift : ℕ
half_shift = 85

-- The loop of `transmitBit` over the time of a bit.
unfoldable pub serve : List Service → Sketch → Sketch
serve [] s = s
serve (serial_in text ∷ l) s = serve l (process_serial_in text s)
serve (measure now r ∷ l) s = serve l (swr_measure now r s)

unfoldable pub serve_bit : List (List Service) → Sketch → Sketch
unfolding serve
serve_bit [] s = s
serve_bit (l ∷ rest) s = serve l s

abbrev pub tail : List (List Service) → List (List Service)
tail [] = []
tail (l ∷ rest) = rest

-- `nextToneFreqHz * 10`.
unfoldable pub tone_x10 : Bool → ℕ → ℕ
tone_x10 mark freq =
    (if mark then freq + half_shift else freq + 2 ^ 32 - half_shift) % 2 ^ 32 * 10 % 2 ^ 32

-- `transmitBit`.
unfoldable pub transmit_bit : Bool → Air → Air
unfolding serve_bit tone_x10
transmit_bit bit a = record a {
  sketch =
      serve_bit a.arrivals (set_frequency_hz_x10 (tone_x10 bit a.sketch.cur_freq) true a.sketch);
  keyed = a.keyed ++ bit ∷ [];
  arrivals = tail a.arrivals;
}

-- The bit `i` of a code.
abbrev pub bit_of : ℕ → ℕ → Bool
bit_of code i = code / 2 ^ i % 2 == 1

-- The loop over the data bits, from the bit `i` on.
unfoldable pub transmit_data : ℕ → ℕ → ℕ → Air → Air
unfolding transmit_bit
transmit_data zero i code a = a
transmit_data (suc left) i code a = transmit_data left (i + 1) code (transmit_bit (bit_of code i) a)

-- `transmitBaudotCode`: a start bit, five data bits, the lowest first, and the stop bit.
unfoldable pub transmit_baudot_code : ℕ → Air → Air
unfolding transmit_data transmit_bit
transmit_baudot_code code a = transmit_bit true (transmit_data 5 0 code (transmit_bit false a))

unfoldable pub transmit_codes : List ℕ → Air → Air
unfolding transmit_baudot_code
transmit_codes [] a = a
transmit_codes (k ∷ l) a = transmit_codes l (transmit_baudot_code k a)

-- The body of the loop over the characters: a shift if it is needed, and the code.
unfoldable pub transmit_char : ℕ → Air → Air
unfolding transmit_codes transmit_baudot_code
transmit_char c a =
    let e : BaudotEntry = get_baudot_code c in
    let shifted : Air = transmit_codes (shift_for e a.current_shift_ltrs) a in
    transmit_baudot_code e.code
      (record shifted { current_shift_ltrs = shift_after e a.current_shift_ltrs })

infixl 20 ◌>>=◌
abbrev pub ◌>>=◌ {ℓ κ} : {A : Type ℓ} {B : Type κ} → Option A → (A → Option B) → Option B
none >>= f = none
some a >>= f = f a

-- The character that a pointer into a text stands at.
unfoldable pub char_at : Bytes → ℕ → ℕ
char_at [] pos = 0
char_at (c ∷ s) zero = c
char_at (c ∷ s) (suc pos) = char_at s pos

-- The loop over the characters of the text in the slot `i`; `none` means that the fuel ran out.
unfoldable pub transmit_text : ℕ → ℕ → ℕ → Air → Option Air
unfolding char_at transmit_char
transmit_text zero i pos a = none
transmit_text (suc fuel) i pos a =
    let c : ℕ = char_at (slot a.sketch.queue.message_buffer i) pos in
    let rest = transmit_text fuel i (pos + 1) (transmit_char c a) in
    if c == 0 || not a.sketch.digital.digi_tx_on then some a else rest

abbrev pub with_queue : Fifo → Air → Air
with_queue q a = record a { sketch = record a.sketch { queue = q } }

-- `getBaudotCode(" ")`: its argument is the address of a literal, cut to a character, `literal`.
unfoldable pub separate : ℕ → Option ℕ → Air → Air
unfolding transmit_baudot_code
separate literal none a = a
separate literal (some i) a = transmit_baudot_code (get_baudot_code literal).code a

-- The loop over the texts, with the pointer that was taken last.
unfoldable pub transmit_texts : ℕ → ℕ → Option ℕ → Air → Option Air
unfolding transmit_text separate
transmit_texts literal fuel none a = some a
transmit_texts literal zero (some i) a = none
transmit_texts literal (suc fuel) (some i) a = do
  b ← transmit_text 72 i 0 a
  let d = dequeue_message b.sketch.queue
  transmit_texts literal fuel d.1 (separate literal d.1 (with_queue d.0 b))

-- Behind the last text: a new line, and letters again.
unfoldable pub finish : Air → Air
unfolding transmit_codes
finish a =
    let lined : Air = transmit_codes (cr_code ∷ lf_code ∷ []) a in
    let closed : Air =
      transmit_codes (if lined.current_shift_ltrs then [] else letters_shift_code ∷ []) lined in
    record closed { current_shift_ltrs = true }

abbrev pub preamble : List ℕ
preamble =
    figures_shift_code ∷ letters_shift_code ∷ figures_shift_code ∷ letters_shift_code ∷ cr_code
    ∷ lf_code ∷ []

unfoldable pub key_up : Air → Air
unfolding tone_x10
key_up a =
    let s : Sketch = set_frequency_hz_x10 (tone_x10 true a.sketch.cur_freq) false a.sketch in
    record a { sketch = record s { digital = record s.digital { digi_tx_on = false } } }

-- The texts from the first one on.
unfoldable pub transmit_from : ℕ → ℕ → Option ℕ → Air → Option Air
unfolding transmit_texts finish transmit_codes
transmit_from literal fuel none a = some a
transmit_from literal fuel (some i) a = do
  let started = transmit_codes preamble a
  b ← transmit_texts literal fuel (some i) (record started { current_shift_ltrs = true })
  some (finish b)

-- `transmitRttyString`.
unfoldable pub transmit_rtty_string : ℕ → ℕ → Air → Option Air
unfolding transmit_from key_up
transmit_rtty_string literal fuel a = do
  let d = dequeue_message a.sketch.queue
  b ← transmit_from literal fuel d.1 (with_queue d.0 a)
  some (key_up b)
