-- ===== src/Transmitter/Serial/Framing.antt =====
-- TXlink4_Nano/TXlink4_Nano.ino: a command between braces is run, whatever came before it.
use sdr_plugin_txlink_wsjt_x.Base.{
  ℕ, ◌≤◌, ◌<◌, ◌≡◌, refl, sym, ap, ◌∙◌, ◌≢◌, inl, inr, List, [], ◌∷◌, ◌++◌, append_assoc,
  append-nil, take, take-append, take-all, ◌⊎◌, true, false, Bytes, arith, ◌==◌, ltb, length,
  length-append,
}
use sdr_plugin_txlink_wsjt_x.Form.{command}
use sdr_plugin_txlink_wsjt_x.Transmitter.{Sketch}
use sdr_plugin_txlink_wsjt_x.Transmitter.Commands.{max_command}
use sdr_plugin_txlink_wsjt_x.Transmitter.Serial.{take_char, process_serial_in, run_command}

-- A text that can stand between braces.
pub data IsPlain : Bytes → Type 0 where
  nothing : IsPlain []
  character : (c : ℕ) (s : Bytes) → c ≢ b'{' → c ≢ b'}' → 0 < c → IsPlain s → IsPlain (c ∷ s)

process_serial_in-append :
    (a b : Bytes) (s : Sketch)
    → process_serial_in (a ++ b) s ≡ process_serial_in b (process_serial_in a s)
unfolding process_serial_in
process_serial_in-append [] b s = refl
process_serial_in-append (c ∷ a) b s = process_serial_in-append a b (take_char c s)

take_char-kept :
    (c : ℕ) (s : Sketch)
    → c ≢ b'{'
    → c ≢ b'}'
    → 0 < c
    → length s.chr_command < 127
    → take_char c s ≡ record s { chr_command = s.chr_command ++ c ∷ [] }
unfolding take_char
take_char-kept c s a b z h =
    let e : (c == b'{') ≡ false = ground arith in
    let f : (c == b'}') ≡ false = ground arith in
    let g : (c == 0) ≡ false = ground arith in
    let l : ltb (length s.chr_command) max_command ≡ true = ground arith in rw (e, f, g, l) refl

take_char-full :
    (c : ℕ) (s : Sketch)
    → c ≢ b'{'
    → c ≢ b'}'
    → 0 < c
    → length s.chr_command ≡ 127
    → take_char c s ≡ s
unfolding take_char
take_char-full c s a b z h =
    let e : (c == b'{') ≡ false = ground arith in
    let f : (c == b'}') ≡ false = ground arith in
    let g : (c == 0) ≡ false = ground arith in
    let l : ltb (length s.chr_command) max_command ≡ false = ground arith in rw (e, f, g, l) refl

take_full {ℓ} : {A : Type ℓ} (n : ℕ) (l m : List A) → length l ≡ n → take n (l ++ m) ≡ l
take_full n l m h = ap (λ k. take k (l ++ m)) (sym h) ∙ take-append l m

-- What stays of the characters: the first 127.
process_serial_in-plain :
    (a : Bytes) (s : Sketch)
    → IsPlain a
    → length s.chr_command ≤ 127
    → process_serial_in a s ≡ record s { chr_command = take 127 (s.chr_command ++ a) }
unfolding process_serial_in
process_serial_in-plain [] s p h =
    ap (λ l. record s { chr_command = l })
      (sym (ap (take 127) (append-nil s.chr_command) ∙ take-all 127 s.chr_command h))
process_serial_in-plain _ s (character c a u v z p) h = elim (room (length s.chr_command) h) [
  | inl room ↦
      let t : Sketch = record s { chr_command = s.chr_command ++ c ∷ [] } in
      rw (take_char-kept c s u v z room) (
        process_serial_in-plain a t p (omega (arith, length-append s.chr_command (c ∷ [])))
        ∙ ap (λ l. record s { chr_command = take 127 l }) (append_assoc s.chr_command (c ∷ []) a))
  | inr full ↦ rw (take_char-full c s u v z full) (
      process_serial_in-plain a s p h
      ∙ ap (λ l. record s { chr_command = l })
          (take_full 127 s.chr_command a full ∙ sym (take_full 127 s.chr_command (c ∷ a) full)))
]
  where
    room : (n : ℕ) → n ≤ 127 → (n < 127) ⊎ (n ≡ 127)
    room n h = omega arith

-- A letter and an argument without braces and NULs, sent between braces, run the command of the
-- letter and the first 126 characters of the argument, whatever was collected before, and the
-- buffer is empty behind it.
pub process_serial_in-command :
    (letter : ℕ) (argument : Bytes) (s : Sketch)
    → IsPlain (letter ∷ argument)
    → process_serial_in (command letter argument) s
      ≡ record (run_command
          (letter ∷ take 126 argument)
          (record s { chr_command = letter ∷ take 126 argument })) { chr_command = [] }
unfolding process_serial_in take_char command
process_serial_in-command letter argument s p =
    process_serial_in-append (letter ∷ argument) (b'}' ∷ []) (record s { chr_command = [] })
    ∙ ap (λ t. process_serial_in (b'}' ∷ []) t)
        (process_serial_in-plain (letter ∷ argument) (record s { chr_command = [] }) p
          (omega arith))
