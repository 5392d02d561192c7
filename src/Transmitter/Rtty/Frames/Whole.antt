-- ===== src/Transmitter/Rtty/Frames/Whole.antt =====
-- TXlink4_Nano/RTTY.ino: one text of the queue on the air, from the first bit to the last.
use sdr_plugin_txlink_wsjt_x.Base.{
  ℕ, ◌+◌, ◌≤◌, ◌≡◌, refl, sym, ap, ◌∙◌, List, [], ◌∷◌, ◌++◌, append_assoc, map, Bool, true, false,
  Option, none, some, Bytes, arith, length, if◌then◌else◌,
}
use sdr_plugin_txlink_wsjt_x.Transmitter.Texts.{Fifo, slot, dequeue_message}
use sdr_plugin_txlink_wsjt_x.Transmitter.Commands.{set_frequency_hz_x10}
use sdr_plugin_txlink_wsjt_x.Transmitter.Baudot.{
  BaudotEntry, get_baudot_code, shift_for, codes_of_char, codes_of_text, cr_code, lf_code,
  letters_shift_code,
}
use sdr_plugin_txlink_wsjt_x.Transmitter.Baudot.Receiver.{
  HasNoNul, listen, printed, shift_behind, listen-codes_of_text, get_baudot_code-bound,
}
use sdr_plugin_txlink_wsjt_x.Transmitter.Rtty.{
  Air, transmit_codes, char_at, with_queue, separate, transmit_texts, finish, preamble, key_up,
  transmit_from, transmit_rtty_string,
}
use sdr_plugin_txlink_wsjt_x.Transmitter.Rtty.Frames.{
  IsSilent, frames, deframe, AllCodes, no_code, one_code, AllCodes-append, frames-append,
  deframe-frames, Quiet, Quiet-append, transmit_codes-Quiet,
}
use sdr_plugin_txlink_wsjt_x.Transmitter.Rtty.Frames.Heard.{
  shifted, Quiet-shifted, transmit_text-Keyed,
}

-- The codes behind a text.
abbrev closing : Bool → List ℕ
closing letters = cr_code ∷ lf_code ∷ (if letters then [] else letters_shift_code ∷ [])

-- All the codes of a text.
abbrev all_codes : Bytes → List ℕ
all_codes t = preamble ++ (codes_of_text t true ++ closing (shift_behind t true))

shift_for-AllCodes : (e : BaudotEntry) (letters : Bool) → AllCodes (shift_for e letters)
unfolding shift_for
shift_for-AllCodes e letters = two e.requires_figures_shift letters
  where
    two :
        (f l : Bool) → AllCodes (shift_for (record { code = e.code; requires_figures_shift = f }) l)
    two true true = one_code (omega arith) no_code
    two true false = no_code
    two false true = no_code
    two false false = one_code (omega arith) no_code

codes_of_text-AllCodes : (s : Bytes) (letters : Bool) → AllCodes (codes_of_text s letters)
unfolding codes_of_text codes_of_char
codes_of_text-AllCodes [] letters = no_code
codes_of_text-AllCodes (c ∷ s) letters =
    AllCodes-append
      (AllCodes-append (shift_for-AllCodes (get_baudot_code c) letters)
        (one_code (get_baudot_code-bound c) no_code))
      (codes_of_text-AllCodes s _)

closing-AllCodes : (letters : Bool) → AllCodes (closing letters)
closing-AllCodes true = one_code (omega arith) (one_code (omega arith) no_code)
closing-AllCodes false =
    one_code (omega arith) (one_code (omega arith) (one_code (omega arith) no_code))

all_codes-AllCodes : (t : Bytes) → AllCodes (all_codes t)
all_codes-AllCodes t =
    AllCodes-append
      (one_code (omega arith) (
        one_code (omega arith) (
          one_code (omega arith)
            (one_code (omega arith) (one_code (omega arith) (one_code (omega arith) no_code))))))
      (AllCodes-append (codes_of_text-AllCodes t true) (closing-AllCodes (shift_behind t true)))

listen-closing : (unshift letters : Bool) → listen unshift letters (closing letters) ≡ 13 ∷ 10 ∷ []
unfolding listen
listen-closing unshift true = refl
listen-closing unshift false = refl

listen-all_codes :
    (unshift : Bool) (t : Bytes)
    → HasNoNul t
    → listen unshift true (all_codes t) ≡ 13 ∷ 10 ∷ (map printed t ++ 13 ∷ 10 ∷ [])
unfolding listen
listen-all_codes unshift t n =
    ap (λ l. 13 ∷ 10 ∷ l)
      (listen-codes_of_text unshift true t (closing (shift_behind t true)) n
        ∙ ap (map printed t ++◌) (listen-closing unshift (shift_behind t true)))

Quiet-bits : {l m : List Bool} {a b : Air} → l ≡ m → Quiet l a b → Quiet m a b
Quiet-bits {a = a} e q = record {
  keyed = q.keyed ∙ ap (λ l. a.keyed ++ l) e;
  silent = q.silent;
  queue = q.queue;
  digital = q.digital;
  shift = q.shift;
}

-- Behind the text: the new line, and letters.
finish-Quiet :
    (a : Air)
    → IsSilent a
    → Quiet (frames (closing a.current_shift_ltrs)) (shifted true a) (finish a)
unfolding finish
finish-Quiet a e =
    let lined : Air = transmit_codes (cr_code ∷ lf_code ∷ []) a in
    let p = transmit_codes-Quiet (cr_code ∷ lf_code ∷ []) a e in
    let q =
      transmit_codes-Quiet (if lined.current_shift_ltrs then [] else letters_shift_code ∷ []) lined
        p.silent in
    Quiet-shifted true (
      Quiet-bits
        (ap
            (λ b.
              frames (cr_code ∷ lf_code ∷ []) ++ frames (if b then [] else letters_shift_code ∷ []))
            p.shift
          ∙ sym (
              frames-append (cr_code ∷ lf_code ∷ [])
                (if a.current_shift_ltrs then [] else letters_shift_code ∷ [])))
        (Quiet-append p q))

-- One text is taken from the queue, and no other waits behind it.
pub record IsAlone (i : ℕ) (t : Bytes) (q : Fifo) : Type 0 where
  pub first : (dequeue_message q).1 ≡ some i
  pub here : slot (dequeue_message q).0.message_buffer i ≡ t
  pub last : (dequeue_message (dequeue_message q).0).1 ≡ none

stops :
    (literal fuel : ℕ) (b : Air)
    → (dequeue_message b.sketch.queue).1 ≡ none
    → let d : Fifo × Option ℕ = dequeue_message b.sketch.queue in
      transmit_texts literal fuel d.1 (separate literal d.1 (with_queue d.0 b))
      ≡ some (with_queue d.0 b)
unfolding transmit_texts separate
stops literal fuel b e = rw e refl

transmit_texts-Quiet :
    (literal i : ℕ) (t : Bytes) (a : Air)
    → HasNoNul t
    → length t ≤ 71
    → slot a.sketch.queue.message_buffer i ≡ t
    → (dequeue_message a.sketch.queue).1 ≡ none
    → IsSilent a
    → a.sketch.digital.digi_tx_on ≡ true
    → (b : Air) × (transmit_texts literal 1 (some i) a ≡ some b
        × b.keyed ≡ a.keyed ++ frames (codes_of_text t a.current_shift_ltrs)
        × IsSilent b
        × b.current_shift_ltrs ≡ shift_behind t a.current_shift_ltrs)
unfolding transmit_texts
transmit_texts-Quiet literal i t a n short e none_left q d =
    let (b, (r, k)) = transmit_text-Keyed t t 72 i 0 a n (omega arith) from_start e q d in
    let no_more = ap (λ f. (dequeue_message f).1) k.queue ∙ none_left in
    (
      with_queue (dequeue_message b.sketch.queue).0 b,
      (rw r (stops literal 0 b no_more), k.keyed, k.silent, k.shift),
    )
  where
    from_start : (k : ℕ) → char_at t (0 + k) ≡ char_at t k
    from_start k = let same : 0 + k ≡ k = omega arith in ap (char_at t) same

joined :
    (before led said ended : List Bool) (p t c : List ℕ)
    → led ≡ before ++ frames p
    → said ≡ led ++ frames t
    → ended ≡ said ++ frames c
    → ended ≡ before ++ frames (p ++ (t ++ c))
joined before led said ended p t c e f g =
    g ∙ ap (◌++ frames c) (f ∙ ap (◌++ frames t) e) ∙ simp (append_assoc, frames-append) refl

-- If one text of at most 71 characters without a NUL waits in the queue, nothing comes over the
-- line meanwhile, no average of the measurements ends and the key is down, then transmitRttyString
-- ends with fuel for one text, and a receiver of ITA2, with or without unshift on space, reads in
-- the bits that were keyed a new line, the text as it is printed (in upper case, a character
-- without a code as a space) and a new line.
pub transmit_rtty_string-heard :
    (literal i : ℕ) (t : Bytes) (unshift : Bool) (a : Air)
    → HasNoNul t
    → length t ≤ 71
    → IsAlone i t a.sketch.queue
    → IsSilent a
    → a.sketch.digital.digi_tx_on ≡ true
    → (b : Air) × (bits : List Bool) × (transmit_rtty_string literal 1 a ≡ some b
        × b.keyed ≡ a.keyed ++ bits
        × listen unshift true (deframe bits) ≡ 13 ∷ 10 ∷ (map printed t ++ 13 ∷ 10 ∷ []))
unfolding transmit_rtty_string transmit_from key_up set_frequency_hz_x10
transmit_rtty_string-heard literal i t unshift a n short alone q d =
    let taken : Air = with_queue (dequeue_message a.sketch.queue).0 a in
    let p = Quiet-shifted true (transmit_codes-Quiet preamble taken q) in
    let on_air : Air = shifted true (transmit_codes preamble taken) in
    let (b, (r, keyed, silent, shift)) =
      transmit_texts-Quiet literal i t on_air n short
        (ap (λ (f : Fifo). slot f.message_buffer i) p.queue ∙ alone.here)
        (ap (λ f. (dequeue_message f).1) p.queue ∙ alone.last) p.silent
        (ap (λ g. g.digi_tx_on) p.digital ∙ d) in
    let z = finish-Quiet b silent in
    (
      key_up (finish b),
      frames (all_codes t),
      (
        rw (alone.first, r) refl,
        joined a.keyed on_air.keyed b.keyed (finish b).keyed preamble (codes_of_text t true)
            (closing (shift_behind t true)) p.keyed keyed
            (z.keyed ∙ ap (λ c. b.keyed ++ frames (closing c)) shift),
        ap (listen unshift true) (deframe-frames (all_codes t) (all_codes-AllCodes t))
            ∙ listen-all_codes unshift t n,
      ),
    )
