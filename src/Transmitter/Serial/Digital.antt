-- ===== src/Transmitter/Serial/Digital.antt =====
-- TXlink4_Nano/TXlink4_Nano.ino: the sketch behind the commands that the form writes for a
-- transmission of WSJT-X.
use sdr_plugin_txlink_wsjt_x.Base.{
  ℕ, zero, suc, ◌+◌, ◌-◌, ◌*◌, ◌/◌, ◌%◌, ◌^◌, ◌≤◌, ◌<◌, ◌≡◌, refl, sym, ap, ◌∙◌, ◌≢◌, inl, inr,
  List, [], ◌∷◌, ◌++◌, take, take-all, Bool, true, false, ◌||◌, Bytes, arith, ◌==◌, ltb, length,
  replicate, codes, str_eq, str_eq_iff, if◌then◌else◌, Bool-cases, lt→ltb, ℤ, pos, negsuc,
  to_string, digits_onto,
}
use sdr_plugin_txlink_wsjt_x.Encode.{ft4}
use sdr_plugin_txlink_wsjt_x.Udp.{Globals}
use sdr_plugin_txlink_wsjt_x.Form.{command, signed_to_string}
use sdr_plugin_txlink_wsjt_x.Form.Frequency.{eq_ℤ}
use sdr_plugin_txlink_wsjt_x.Form.UdpEvent.{time_to_end}
use sdr_plugin_txlink_wsjt_x.Form.Keying.{commands_at}
use sdr_plugin_txlink_wsjt_x.Transmitter.{Sketch}
use sdr_plugin_txlink_wsjt_x.Transmitter.Numbers.{
  atoi, is_zero, read_number, read_signed, read_digits,
}
use sdr_plugin_txlink_wsjt_x.Transmitter.Numbers.Digits.{Fits, atoi-signed_to_string}
use sdr_plugin_txlink_wsjt_x.Transmitter.Commands.{
  mode_rtty, set_tx_mode, set_dig_defaults, set_millis_to_end, set_digi_tx_on, take_message,
  set_digital_tx_buffer, tones_of, sum,
}
use sdr_plugin_txlink_wsjt_x.Transmitter.Serial.{
  process_serial_in, run_command, with_argument, with_digital, set_tx_df, take_char,
}
use sdr_plugin_txlink_wsjt_x.Transmitter.Serial.Framing.{
  IsPlain, nothing, character, process_serial_in-command,
}
use sdr_plugin_txlink_wsjt_x.Transmitter.Serial.Sound.{
  IsSound, length-tones_of, process_serial_in-IsSound,
}

-- The lines that the form writes, in their order.
pub receive : List Bytes → Sketch → Sketch
receive [] s = s
receive (l ∷ ls) s = receive ls (process_serial_in l s)

digits_onto-IsPlain : (f n : ℕ) (out : Bytes) → IsPlain out → IsPlain (digits_onto f n out)
unfolding digits_onto
digits_onto-IsPlain zero n out p = character _ out (omega arith) (omega arith) (omega arith) p
digits_onto-IsPlain (suc f) n out p = elim (Bool-cases (ltb n 10)) [
  | inl small ↦ rw small (character _ out (omega arith) (omega arith) (omega arith) p)
  | inr large ↦ rw large (
      digits_onto-IsPlain f (n / 10) (((n % 10) + b'0') ∷ out)
        (character _ out (omega arith) (omega arith) (omega arith) p))
]

length-digits_onto :
    (f k n : ℕ) (out : Bytes) → n < 10 ^ suc k → length (digits_onto f n out) ≤ suc k + length out
unfolding digits_onto
length-digits_onto zero k n out h = omega arith
length-digits_onto (suc f) zero n out h = rw (lt→ltb n 10 (omega arith)) (omega arith)
length-digits_onto (suc f) (suc k) n out h = elim (Bool-cases (ltb n 10)) [
  | inl small ↦ rw small (omega arith)
  | inr large ↦ rw large (
      omega (
        arith,
        length-digits_onto f k (n / 10) (((n % 10) + b'0') ∷ out)
            (tenth (10 ^ suc k) (omega arith)),
      ))
]
  where
    tenth : (p : ℕ) → n < 10 * p → n / 10 < p
    tenth p h = omega arith

length-signed_to_string : (z : ℤ) → Fits 32768 z → length (signed_to_string z) ≤ 126
unfolding signed_to_string to_string
length-signed_to_string (pos n) h = omega (arith, length-digits_onto n 4 n [] (omega arith))
length-signed_to_string (negsuc n) h =
    omega (arith, length-digits_onto (suc n) 4 (suc n) [] (omega arith))

signed_to_string-IsPlain : (z : ℤ) → IsPlain (signed_to_string z)
unfolding signed_to_string to_string
signed_to_string-IsPlain (pos n) = digits_onto-IsPlain n n [] nothing
signed_to_string-IsPlain (negsuc n) =
    character b'-' _ (omega arith) (omega arith) (omega arith)
      (digits_onto-IsPlain (suc n) (suc n) [] nothing)

-- A command with a number: it is run on exactly that number.
process_serial_in-number :
    (c : ℕ) (z : ℤ) (s : Sketch)
    → IsPlain (c ∷ signed_to_string z)
    → Fits 32768 z
    → process_serial_in (command c (signed_to_string z)) s
      ≡ record (run_command
          (c ∷ signed_to_string z)
          (record s { chr_command = c ∷ signed_to_string z })) { chr_command = [] }
process_serial_in-number c z s p h =
    process_serial_in-command c (signed_to_string z) s p
    ∙ ap (λ a. record (run_command (c ∷ a) (record s { chr_command = c ∷ a })) { chr_command = [] })
        (take-all 126 (signed_to_string z) (length-signed_to_string z h))

letter : (c : ℕ) (a : Bytes) → c ≢ b'{' → c ≢ b'}' → 0 < c → IsPlain a → IsPlain (c ∷ a)
letter c a u v w p = character c a u v w p

process_serial_in-df :
    (z : ℤ) (s : Sketch)
    → Fits 32768 z
    → process_serial_in (command b'Y' (signed_to_string z)) s
      ≡ record s { digital = record s.digital { ftx_tx_df = z }; chr_command = [] }
unfolding run_command with_argument with_digital set_tx_df str_eq
process_serial_in-df z s h =
    process_serial_in-number b'Y' z s
      (character b'Y' _ (omega arith) (omega arith) (omega arith) (signed_to_string-IsPlain z)) h
    ∙ ap (λ n. record s { digital = record s.digital { ftx_tx_df = n }; chr_command = [] })
        (atoi-signed_to_string z h)

process_serial_in-millis :
    (z : ℤ) (s : Sketch)
    → Fits 32768 z
    → process_serial_in (command b'W' (signed_to_string z)) s ≡ record s {
      digital = record s.digital {
        ftx_millis_to_end = z;
        digi_tx_on = if is_zero z then false else s.digital.digi_tx_on;
      };
      chr_command = [];
    }
unfolding run_command with_argument with_digital set_millis_to_end str_eq
process_serial_in-millis z s h =
    process_serial_in-number b'W' z s
      (character b'W' _ (omega arith) (omega arith) (omega arith) (signed_to_string-IsPlain z)) h
    ∙ ap
        (λ n. record s {
          digital = record s.digital {
            ftx_millis_to_end = n;
            digi_tx_on = if is_zero n then false else s.digital.digi_tx_on;
          };
          chr_command = [];
        })
        (atoi-signed_to_string z h)

process_serial_in-start :
    (s : Sketch)
    → process_serial_in (codes "{X1}") s
      ≡ record s { digital = record s.digital { digi_tx_on = true }; chr_command = [] }
unfolding process_serial_in take_char run_command with_argument with_digital set_digi_tx_on atoi
    read_number read_signed read_digits str_eq
process_serial_in-start s = refl

-- The number and the count of symbols of a mode of WSJT-X, FT4 or else FT8.
abbrev pub mode_of : Bool → ℤ
mode_of ft4_on = if ft4_on then pos 4 else pos 8

abbrev pub count_of : Bool → ℕ
count_of ft4_on = if ft4_on then 105 else 79

abbrev mode_text : Bool → Bytes
mode_text ft4_on = if ft4_on then codes "{M4}" else codes "{M8}"

same_mode : (k : ℕ) (m : ℤ) → eq_ℤ (pos k) m ≡ true → m ≡ pos k
same_mode k (pos n) h = ap pos (ground arith)
same_mode k (negsuc n) h = absurd (ground arith)

process_serial_in-mode :
    (b : Bool) (s : Sketch) → (process_serial_in (mode_text b) s).digital.tx_mode ≡ mode_of b
unfolding process_serial_in take_char run_command with_argument with_digital set_tx_mode
    set_dig_defaults atoi read_number read_signed read_digits str_eq
process_serial_in-mode true s = elim (Bool-cases (eq_ℤ (pos 4) s.digital.tx_mode)) [
  | inl e ↦ rw e (same_mode 4 s.digital.tx_mode e)
  | inr e ↦ rw e refl
]
process_serial_in-mode false s = elim (Bool-cases (eq_ℤ (pos 8) s.digital.tx_mode)) [
  | inl e ↦ rw e (same_mode 8 s.digital.tx_mode e)
  | inr e ↦ rw e refl
]

IsSetFor-count :
    (b : Bool) (s : Sketch)
    → IsSound s
    → s.digital.tx_mode ≡ mode_of b
    → s.tones.symbol_count ≡ pos (count_of b)
IsSetFor-count true s v e = ap (λ t. t.symbol_count) (v.holds.3.1 e)
IsSetFor-count false s v e = ap (λ t. t.symbol_count) (v.holds.3.0 e)

set_digital_tx_buffer-loaded :
    (n : ℕ) (s : Sketch)
    → eq_ℤ s.digital.tx_mode mode_rtty ≡ false
    → s.tones.symbol_count ≡ pos n
    → length s.digital.ftx_tx_msg ≡ n
    → set_digital_tx_buffer s ≡ record s {
      digital = record s.digital {
        tx_buffer = tones_of n s.digital.ftx_tx_msg ++ replicate (106 - n) 0;
        tune_chk = sum (tones_of n s.digital.ftx_tx_msg);
      };
    }
unfolding set_digital_tx_buffer
set_digital_tx_buffer-loaded n s m c l =
    let same : (length s.digital.ftx_tx_msg + 0 == n + 0) ≡ true = ground arith in
    rw (m, c, same, length-tones_of n s.digital.ftx_tx_msg) refl

take_message-kept :
    (m : Bytes) (s : Sketch)
    → eq_ℤ s.digital.tx_mode mode_rtty ≡ false
    → (length m == 105 || length m == 79) ≡ true
    → (take_message m s).digital.ftx_tx_msg ≡ m
      × (take_message m s).digital.tx_mode ≡ s.digital.tx_mode
      × (take_message m s).digital.ftx_tx_df ≡ s.digital.ftx_tx_df
      × (take_message m s).tones ≡ s.tones
unfolding take_message
take_message-kept m s r k = elim (Bool-cases (str_eq m s.digital.ftx_tx_msg)) [
  | inl e ↦ rw (r, k, e) (sym ((str_eq_iff m s.digital.ftx_tx_msg).0 e), refl, refl, refl)
  | inr e ↦ rw (r, k, e) (refl, refl, refl, refl)
]

-- What a message of a transmission leaves.
abbrev pub IsLoaded : Bool → Bytes → ℤ → Sketch → Type 0
IsLoaded b m df s =
    s.digital.ftx_tx_msg ≡ m
    × s.digital.tx_buffer ≡ tones_of (count_of b) m ++ replicate (106 - count_of b) 0
    × s.digital.tx_mode ≡ mode_of b
    × s.digital.ftx_tx_df ≡ df

not_rtty : (b : Bool) (m : ℤ) → m ≡ mode_of b → eq_ℤ m mode_rtty ≡ false
not_rtty true m e = rw e refl
not_rtty false m e = rw e refl

full_count : (b : Bool) (n : ℕ) → n ≡ count_of b → (n == 105 || n == 79) ≡ true
full_count true n e = rw e refl
full_count false n e = rw e refl

count-bound : (b : Bool) → count_of b ≤ 126
count-bound true = omega arith
count-bound false = omega arith

take_message-IsLoaded :
    (b : Bool) (m : Bytes) (s : Sketch)
    → s.digital.tx_mode ≡ mode_of b
    → s.tones.symbol_count ≡ pos (count_of b)
    → length m ≡ count_of b
    → IsLoaded b m s.digital.ftx_tx_df (set_digital_tx_buffer (take_message m s))
take_message-IsLoaded b m s e c l =
    let (msg, mode, df, tones) =
      take_message-kept m s (not_rtty b _ e) (full_count b (length m) l) in
    rw
      (set_digital_tx_buffer-loaded (count_of b) (take_message m s) (not_rtty b _ (mode ∙ e))
        (ap (λ t. t.symbol_count) tones ∙ c) (ap length msg ∙ l))
      (msg, ap (λ x. tones_of (count_of b) x ++ replicate (106 - count_of b) 0) msg, mode ∙ e, df)

process_serial_in-symbols :
    (b : Bool) (m : Bytes) (s : Sketch)
    → IsPlain m
    → s.digital.tx_mode ≡ mode_of b
    → s.tones.symbol_count ≡ pos (count_of b)
    → length m ≡ count_of b
    → IsLoaded b m s.digital.ftx_tx_df (process_serial_in (command b'Z' m) s)
unfolding run_command with_argument with_digital str_eq
process_serial_in-symbols b m s p e c l =
    let short : length m ≤ 126 = omega (arith, l, count-bound b) in
    rw
      (
        process_serial_in-command b'Z' m s
            (character b'Z' m (omega arith) (omega arith) (omega arith) p),
        take_all,
      )
      (take_message-IsLoaded b m (record s { chr_command = b'Z' ∷ m }) e c l)
  where
    take_all : take 126 m ≡ m
    take_all = take-all 126 m (omega (arith, l, count-bound b))

-- If the globals are sound, the mode is FT8 or FT4 and WSJT-X transmits with no stop raised, with
-- as many symbols as the mode has, none of them a brace or a NUL, and an offset and a time that fit
-- an int, then the commands that the form writes for the event leave that mode, offset, message and
-- time, the tones of the symbols in the buffer, and the key down.
pub receive-commands_at :
    (now : ℕ) (g : Globals) (s : Sketch) (b : Bool)
    → IsSound s
    → g.tx_flg ≡ true
    → g.udp_halt_tx_event ≡ false
    → str_eq g.tx_mode_str ft4 ≡ b
    → length g.tx_symbols ≡ count_of b
    → IsPlain g.tx_symbols
    → Fits 32768 g.tx_df
    → Fits 32768 (time_to_end now g)
    → IsLoaded b g.tx_symbols g.tx_df (receive (commands_at now g) s)
      × (receive (commands_at now g) s).digital.ftx_millis_to_end ≡ time_to_end now g
      × (receive (commands_at now g) s).digital.digi_tx_on ≡ true
unfolding receive
receive-commands_at now g s b v tx halt mode count p df time =
    rw (tx, halt, mode, ended) (loaded, refl, refl)
  where
    in_mode : Sketch
    in_mode = process_serial_in (mode_text b) s

    offset : Sketch
    offset = process_serial_in (command b'Y' (signed_to_string g.tx_df)) in_mode

    ready : Sketch
    ready = process_serial_in (command b'Z' g.tx_symbols) offset

    is_mode : in_mode.digital.tx_mode ≡ mode_of b
    is_mode = process_serial_in-mode b s

    has_offset : offset ≡ record in_mode {
      digital = record in_mode.digital { ftx_tx_df = g.tx_df };
      chr_command = [];
    }
    has_offset = process_serial_in-df g.tx_df in_mode df

    loaded : IsLoaded b g.tx_symbols g.tx_df ready
    loaded = rw has_offset (
        process_serial_in-symbols b g.tx_symbols _ p is_mode
          (IsSetFor-count b in_mode (process_serial_in-IsSound (mode_text b) s v) is_mode) count)

    ended :
        process_serial_in
          (codes "{X1}")
          (process_serial_in (command b'W' (signed_to_string (time_to_end now g))) ready)
        ≡ record ready {
          digital = record ready.digital {
            ftx_millis_to_end = time_to_end now g;
            digi_tx_on = true;
          };
          chr_command = [];
        }
    ended =
        process_serial_in-start _
        ∙ ap
            (λ (t : Sketch). record t {
              digital = record t.digital { digi_tx_on = true };
              chr_command = [];
            })
            (process_serial_in-millis (time_to_end now g) ready time)
