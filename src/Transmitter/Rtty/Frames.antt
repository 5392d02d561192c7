-- ===== src/Transmitter/Rtty/Frames.antt =====
-- TXlink4_Nano/RTTY.ino: the bits of a text, and the receiver that reads them.
pub mod Heard
pub mod Whole
use sdr_plugin_txlink_wsjt_x.Base.{
  ℕ, zero, suc, leb, ◌+◌, ◌*◌, ◌<◌, ◌≡◌, refl, sym, ap, ◌∙◌, inl, inr, List, [], ◌∷◌, ◌++◌,
  append_assoc, append-nil, Bool, true, false, Bytes, arith, ◌==◌, Bool-cases, if◌then◌else◌,
}
use sdr_plugin_txlink_wsjt_x.Transmitter.{Sketch}
use sdr_plugin_txlink_wsjt_x.Transmitter.Commands.{set_frequency_hz_x10}
use sdr_plugin_txlink_wsjt_x.Transmitter.Safety.{Reading, avg_count, swr_measure}
use sdr_plugin_txlink_wsjt_x.Transmitter.Rtty.{
  Air, Service, serial_in, measure, serve, serve_bit, tail, tone_x10, transmit_bit, transmit_data,
  bit_of, transmit_baudot_code, transmit_codes,
}

-- The bits of one code: the start bit, five data bits, the stop bit.
pub frame : ℕ → List Bool
frame k = false ∷ bit_of k 0 ∷ bit_of k 1 ∷ bit_of k 2 ∷ bit_of k 3 ∷ bit_of k 4 ∷ true ∷ []

unfoldable pub frames : List ℕ → List Bool
frames [] = []
frames (k ∷ l) = frame k ++ frames l

abbrev weight : Bool → ℕ → ℕ
weight b n = if b then n else 0

-- A receiver of seven bits a character; it stops where a frame is not complete.
pub deframe : List Bool → List ℕ
deframe (false ∷ a ∷ b ∷ c ∷ d ∷ e ∷ true ∷ l) =
    (weight a 1 + weight b 2 + weight c 4 + weight d 8 + weight e 16) ∷ deframe l
deframe _ = []

bits_lem :
    (k : ℕ)
    → k < 32
    → weight (bit_of k 0) 1
        + weight (bit_of k 1) 2
        + weight (bit_of k 2) 4
        + weight (bit_of k 3) 8
        + weight (bit_of k 4) 16
      ≡ k
bits_lem k h = ground arith

-- Codes of five bits.
pub data AllCodes : List ℕ → Type 0 where
  no_code : AllCodes []
  one_code : {k : ℕ} {l : List ℕ} → k < 32 → AllCodes l → AllCodes (k ∷ l)

pub AllCodes-append : {l m : List ℕ} → AllCodes l → AllCodes m → AllCodes (l ++ m)
AllCodes-append no_code q = q
AllCodes-append (one_code h p) q = one_code h (AllCodes-append p q)

pub deframe-frames : (l : List ℕ) → AllCodes l → deframe (frames l) ≡ l
unfolding frames frame deframe
deframe-frames _ no_code = refl
deframe-frames _ (one_code {k} {l} h p) = λ i. bits_lem k h i ∷ deframe-frames l p i

pub frames-append : (l m : List ℕ) → frames (l ++ m) ≡ frames l ++ frames m
unfolding frames
frames-append [] m = refl
frames-append (k ∷ l) m =
    ap (frame k ++◌) (frames-append l m) ∙ sym (append_assoc (frame k) (frames l) (frames m))

-- Nothing comes over the line, and none of the measurements ends an average of which `n` are made.
pub data Silent : ℕ → List (List Service) → Type 0 where
  over : {n : ℕ} → Silent n []
  next_bit : {n : ℕ} {l : List (List Service)} → Silent n l → Silent n ([] ∷ l)
  counts :
      {n now : ℕ} {r : Reading} {x : List Service} {l : List (List Service)}
      → n + 1 < avg_count
      → Silent (n + 1) (x ∷ l)
      → Silent n ((measure now r ∷ x) ∷ l)

abbrev pub IsSilent : Air → Type 0
IsSilent a = Silent a.sketch.avg_counter a.arrivals

-- The bits were keyed, and nothing else changed but the chip and the counter of the measurements.
pub record Quiet (bits : List Bool) (a b : Air) : Type 0 where
  pub keyed : b.keyed ≡ a.keyed ++ bits
  pub silent : IsSilent b
  pub queue : b.sketch.queue ≡ a.sketch.queue
  pub digital : b.sketch.digital ≡ a.sketch.digital
  pub shift : b.current_shift_ltrs ≡ a.current_shift_ltrs

pub Quiet-refl : (a : Air) → IsSilent a → Quiet [] a a
Quiet-refl a e = record {
  keyed = sym (append-nil a.keyed);
  silent = e;
  queue = refl;
  digital = refl;
  shift = refl;
}

pub Quiet-append : {l m : List Bool} {a b c : Air} → Quiet l a b → Quiet m b c → Quiet (l ++ m) a c
Quiet-append {l} {m} {a} p q = record {
  keyed = q.keyed ∙ ap (◌++ m) p.keyed ∙ append_assoc a.keyed l m;
  silent = q.silent;
  queue = q.queue ∙ p.queue;
  digital = q.digital ∙ p.digital;
  shift = q.shift ∙ p.shift;
}

-- The measurements during a bit.
record Counted (l : List (List Service)) (s t : Sketch) : Type 0 where
  silent : Silent t.avg_counter (tail l)
  queue : t.queue ≡ s.queue
  digital : t.digital ≡ s.digital

swr_measure-counts :
    (now : ℕ) (r : Reading) (s : Sketch)
    → s.avg_counter + 1 < avg_count
    → swr_measure now r s ≡ record s { avg_counter = s.avg_counter + 1 }
unfolding swr_measure
swr_measure-counts now r s h =
    let more : leb avg_count (s.avg_counter + 1) ≡ false = ground arith in rw more refl

serve_bit-Counted :
    (l : List (List Service)) (s : Sketch) → Silent s.avg_counter l → Counted l s (serve_bit l s)
unfolding serve_bit
serve_bit-Counted [] s over = record { silent = over; queue = refl; digital = refl }
serve_bit-Counted ([] ∷ l) s (next_bit h) = record { silent = h; queue = refl; digital = refl }
serve_bit-Counted ((serial_in x ∷ y) ∷ l) s h = elim h [ ]
serve_bit-Counted ((measure now r ∷ x) ∷ l) s (counts few h) =
    let t : Sketch = record s { avg_counter = s.avg_counter + 1 } in
    let rest = serve_bit-Counted (x ∷ l) t h in
    rw (swr_measure-counts now r s few)
      (record { silent = rest.silent; queue = rest.queue; digital = rest.digital })

transmit_bit-Quiet : (b : Bool) (a : Air) → IsSilent a → Quiet (b ∷ []) a (transmit_bit b a)
unfolding transmit_bit serve_bit set_frequency_hz_x10
transmit_bit-Quiet b a e =
    let tuned : Sketch = set_frequency_hz_x10 (tone_x10 b a.sketch.cur_freq) true a.sketch in
    let c = serve_bit-Counted a.arrivals tuned e in
    record { keyed = refl; silent = c.silent; queue = c.queue; digital = c.digital; shift = refl }

key_bits : List Bool → Air → Air
key_bits [] a = a
key_bits (b ∷ l) a = key_bits l (transmit_bit b a)

key_bits-Quiet : (l : List Bool) (a : Air) → IsSilent a → Quiet l a (key_bits l a)
unfolding key_bits
key_bits-Quiet [] a e = Quiet-refl a e
key_bits-Quiet (b ∷ l) a e =
    let one = transmit_bit-Quiet b a e in
    Quiet-append one (key_bits-Quiet l (transmit_bit b a) one.silent)

transmit_baudot_code-bits :
    (code : ℕ) (a : Air) → transmit_baudot_code code a ≡ key_bits (frame code) a
unfolding transmit_baudot_code transmit_data frame key_bits
transmit_baudot_code-bits code a = refl

pub transmit_codes-Quiet :
    (l : List ℕ) (a : Air) → IsSilent a → Quiet (frames l) a (transmit_codes l a)
unfolding transmit_codes frames
transmit_codes-Quiet [] a e = Quiet-refl a e
transmit_codes-Quiet (k ∷ l) a e =
    let one = key_bits-Quiet (frame k) a e in
    rw (transmit_baudot_code-bits k a)
      (Quiet-append one (transmit_codes-Quiet l (key_bits (frame k) a) one.silent))
