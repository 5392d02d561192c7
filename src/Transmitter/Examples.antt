-- ===== src/Transmitter/Examples.antt =====
-- The sketch of the Arduino on concrete inputs.
use sdr_plugin_txlink_wsjt_x.Base.{
  ℕ, zero, suc, ◌+ℤ◌, ◌+◌, ◌*◌, ◌^◌, ◌≤◌, ◌≡◌, refl, List, [], ◌∷◌, ◌++◌, map, Bool, true, false,
  some, Bytes, pos, codes, replicate, arith, length, if◌then◌else◌, pos_part, str_eq,
}
use sdr_plugin_txlink_wsjt_x.Encode.{ft4}
use sdr_plugin_txlink_wsjt_x.Udp.{Globals}
use sdr_plugin_txlink_wsjt_x.Form.{command}
use sdr_plugin_txlink_wsjt_x.Form.UdpEvent.{time_to_end}
use sdr_plugin_txlink_wsjt_x.Form.Keying.{commands_at}
use sdr_plugin_txlink_wsjt_x.Transmitter.{Digital, Sketch, Effect, set_ftw}
use sdr_plugin_txlink_wsjt_x.Transmitter.Safety.{Reading, is_unsafe, check_fan_state, report}
use sdr_plugin_txlink_wsjt_x.Transmitter.Safety.Lockout.{Locked, check_fan_state-Locked}
use sdr_plugin_txlink_wsjt_x.Transmitter.Message.{Message, waiting, ended, is_waiting, on_moments}
use sdr_plugin_txlink_wsjt_x.Transmitter.Message.Stop.{measured, on_moments-lockout}
use sdr_plugin_txlink_wsjt_x.Transmitter.MainLoop.{Pass}
use sdr_plugin_txlink_wsjt_x.Transmitter.MainLoop.Release.{
  IsIdle, none_left, and_idle, here, there, loops, loops-receives,
}
use sdr_plugin_txlink_wsjt_x.Transmitter.MainLoop.Wrap.{no_pass, and_late, loops-stuck}
use sdr_plugin_txlink_wsjt_x.Transmitter.Setup.{declared, setup, setup-IsSound}
use sdr_plugin_txlink_wsjt_x.Transmitter.Texts.{
  Fifo, slot, initialise_queue, enqueue_message, dequeue_message,
}
use sdr_plugin_txlink_wsjt_x.Transmitter.Texts.Ring.{
  enqueue, dequeue, history, promised, enqueue_all, history-promised, dequeue_message-kept, IsRing,
  call-IsRing, initialise_queue-IsRing, call,
}
use sdr_plugin_txlink_wsjt_x.Transmitter.Chip.{Dds, set_clock, frequency_ftw}
use sdr_plugin_txlink_wsjt_x.Transmitter.Chip.Tuning.{frequency_ftw-close}
use sdr_plugin_txlink_wsjt_x.Transmitter.Commands.{ft8_tones, ft4_tones}
use sdr_plugin_txlink_wsjt_x.Transmitter.Serial.{process_serial_in, run_command}
use sdr_plugin_txlink_wsjt_x.Transmitter.Serial.Framing.{
  IsPlain, nothing, character, process_serial_in-command,
}
use sdr_plugin_txlink_wsjt_x.Transmitter.Serial.Sound.{IsSound, process_serial_in-IsSound}
use sdr_plugin_txlink_wsjt_x.Transmitter.Serial.Digital.{receive, IsLoaded, receive-commands_at}
use sdr_plugin_txlink_wsjt_x.Transmitter.Start.{time_left, adjust_start}
use sdr_plugin_txlink_wsjt_x.Transmitter.Start.Fit.{
  Starts, tones_for, least_time, adjust_start-Starts,
}
use sdr_plugin_txlink_wsjt_x.Transmitter.Gauss.{transition}
use sdr_plugin_txlink_wsjt_x.Transmitter.Gauss.Transition.{
  AllBetween, transition-AllBetween, last_of, transition-end,
}
use sdr_plugin_txlink_wsjt_x.Transmitter.Baudot.Receiver.{HasNoNul, ends, goes_on, listen, printed}
use sdr_plugin_txlink_wsjt_x.Transmitter.Rtty.{
  Air, Service, serial_in, measure, transmit_rtty_string,
}
use sdr_plugin_txlink_wsjt_x.Transmitter.Rtty.Ends.{pending, transmit_rtty_string-ends}
use sdr_plugin_txlink_wsjt_x.Transmitter.Rtty.Frames.{deframe, IsSilent, over, next_bit, counts}
use sdr_plugin_txlink_wsjt_x.Transmitter.Rtty.Frames.Whole.{IsAlone, transmit_rtty_string-heard}

abbrev text : Bytes
text = codes "73 g4ahn"

-- The queue with one text, and the rest of it.
one_text : Fifo
one_text = (enqueue_message text initialise_queue).0

one_text-IsRing : IsRing one_text
unfolding one_text call
one_text-IsRing = call-IsRing (enqueue text) initialise_queue initialise_queue-IsRing

one_text_first : (dequeue_message one_text).1 ≡ some 0
unfolding one_text dequeue_message enqueue_message initialise_queue
one_text_first = refl

one_text-IsAlone : IsAlone 0 text one_text
unfolding one_text dequeue_message enqueue_message initialise_queue
one_text-IsAlone = record { first = refl; here = refl; last = refl }

text-HasNoNul : HasNoNul text
text-HasNoNul = goes_on (omega arith) (
    goes_on (omega arith) (
      goes_on (omega arith) (
        goes_on (omega arith) (
          goes_on (omega arith)
            (goes_on (omega arith) (goes_on (omega arith) (goes_on (omega arith) ends)))))))

abbrev reading : Reading
reading = record {
  avg_fwd = 1500;
  swr = 3500;
  temp = pos 30_000;
  fwd_text = codes "{F0.0}";
  ref_text = codes "{R0.00}";
  swr_text = codes "{S0.0}";
  temp_text = codes "{T30.00}";
}

abbrev on_air : List (List Service) → Air
on_air arrivals = record {
  sketch = record (setup declared) {
    queue = one_text;
    digital = record (setup declared).digital { digi_tx_on = true };
  };
  current_shift_ltrs = true;
  keyed = [];
  arrivals = arrivals;
}

on_air-IsSound : (arrivals : List (List Service)) → IsSound (on_air arrivals).sketch
on_air-IsSound arrivals = record {
  holds = (
    setup-IsSound.holds.0, setup-IsSound.holds.1, setup-IsSound.holds.2, setup-IsSound.holds.3,
    one_text-IsRing,
  );
}

-- Two bits, with a text, an unsafe measurement and a stop.
abbrev busy_bits : List (List Service)
busy_bits =
    (serial_in (codes "{Zcq}") ∷ measure 0 reading ∷ []) ∷ (serial_in (codes "{X0}") ∷ []) ∷ []

-- Two measurements.
abbrev measured_bit : List (List Service)
measured_bit = (measure 0 reading ∷ measure 1 reading ∷ []) ∷ []

measured_bit-Silent : IsSilent (on_air measured_bit)
unfolding setup declared
measured_bit-Silent = counts (omega arith) (counts (omega arith) (next_bit over))

transmit_rtty_string-heard_example :
    (b : Air) × (bits : List Bool) × (transmit_rtty_string 7 1 (on_air measured_bit) ≡ some b
      × b.keyed ≡ (on_air measured_bit).keyed ++ bits
      × listen false true (deframe bits) ≡ 13 ∷ 10 ∷ (map printed text ++ 13 ∷ 10 ∷ []))
transmit_rtty_string-heard_example =
    transmit_rtty_string-heard 7 0 text false (on_air measured_bit) text-HasNoNul (omega arith)
      one_text-IsAlone measured_bit-Silent refl

transmit_rtty_string-ends_example :
    (b : Air) × (transmit_rtty_string 7 (pending (on_air busy_bits) + 1) (on_air busy_bits) ≡ some b
      × b.sketch.digital.digi_tx_on ≡ false
      × IsSound b.sketch)
transmit_rtty_string-ends_example =
    transmit_rtty_string-ends 7 (on_air busy_bits) (on_air-IsSound busy_bits)

history-promised_example :
    history (enqueue text ∷ dequeue ∷ dequeue ∷ []) initialise_queue
    ≡ promised (enqueue text ∷ dequeue ∷ dequeue ∷ []) []
history-promised_example = history-promised (enqueue text ∷ dequeue ∷ dequeue ∷ [])

dequeue_message-kept_example :
    slot
      (enqueue_all (text ∷ text ∷ text ∷ text ∷ []) (dequeue_message one_text).0).message_buffer
      0
    ≡ slot one_text.message_buffer 0
dequeue_message-kept_example =
    dequeue_message-kept (text ∷ text ∷ text ∷ text ∷ []) one_text 0 one_text-IsRing one_text_first

process_serial_in-IsSound_example :
    IsSound (process_serial_in (codes "{M4}x{Z01}{F14074000}{") (setup declared))
process_serial_in-IsSound_example =
    process_serial_in-IsSound (codes "{M4}x{Z01}{F14074000}{") (setup declared) setup-IsSound

process_serial_in-command_example :
    process_serial_in (command b'U' []) (setup declared)
    ≡ record (run_command (b'U' ∷ []) (record (setup declared) { chr_command = b'U' ∷ [] })) {
      chr_command = [];
    }
process_serial_in-command_example =
    process_serial_in-command b'U' [] (setup declared)
      (character b'U' [] (omega arith) (omega arith) (omega arith) nothing)

zeros-IsPlain : (n : ℕ) → IsPlain (replicate n b'0')
zeros-IsPlain zero = nothing
zeros-IsPlain (suc n) =
    character b'0' (replicate n b'0') (omega arith) (omega arith) (omega arith) (zeros-IsPlain n)

abbrev tune : Globals
tune = record {
  udp_exit_request = false;
  udp_event = true;
  udp_halt_tx_event = false;
  tx_flg = true;
  tx_df = pos 1200;
  tx_mode_str = codes "FT8";
  last_tx_msg = codes "TUNE";
  tx_mode_change = false;
  dx_call = [];
  dx_grid = [];
  new_dx_call = [];
  str_report = [];
  rx_df = 0;
  str_decode_msg = codes "TUNE";
  cur_frequency = 14074000;
  new_frequency = 0;
  tx_symbols = replicate 79 b'0';
}

tune_time : time_to_end 3000 tune ≡ pos 30000
unfolding str_eq
tune_time = refl

tune_mode : str_eq tune.tx_mode_str ft4 ≡ false
unfolding str_eq
tune_mode = refl

receive-commands_at_example :
    IsLoaded false tune.tx_symbols tune.tx_df (receive (commands_at 3000 tune) (setup declared))
    × (receive (commands_at 3000 tune) (setup declared)).digital.ftx_millis_to_end
      ≡ time_to_end 3000 tune
    × (receive (commands_at 3000 tune) (setup declared)).digital.digi_tx_on ≡ true
receive-commands_at_example =
    receive-commands_at 3000 tune (setup declared) false setup-IsSound refl refl tune_mode refl
      (zeros-IsPlain 79) (omega arith) (rw tune_time (omega arith))

-- A transmission that starts with 9 s left.
abbrev late : Digital
late = record {
  tx_mode = pos 8;
  digi_tx_on = true;
  ft8_tx_delay = pos 250;
  ftx_tx_df = pos 1200;
  ftx_tx_last_df = pos 1200;
  ftx_millis_to_end = pos 9_000;
  tune_chk = 3;
  ftx_tx_msg = [];
  ftx_tx_msg_changed = false;
  tx_buffer = replicate 106 0;
}

adjust_start-Starts_example :
    Starts
      (pos_part (tones_for false).symbol_count)
      (tones_for false).tone_duration
      (least_time false)
      (time_left late)
      (adjust_start late (tones_for false))
adjust_start-Starts_example = adjust_start-Starts false late refl

transition-AllBetween_example :
    AllBetween 240_000_000 240_001_044 (transition ft8_tones 240_000_000 240_001_044)
transition-AllBetween_example =
    transition-AllBetween 240_000_000 240_001_044 (omega arith) (omega arith) ft8_tones

transition-end_example :
    last_of 240_001_044
        (transition (if false then ft4_tones else ft8_tones) 240_001_044 240_000_000)
      ≡ 240_000_000
    × length (transition (if false then ft4_tones else ft8_tones) 240_001_044 240_000_000)
      ≡ (if false then ft4_tones else ft8_tones).g_tran_steps
transition-end_example =
    transition-end false 240_001_044 240_000_000 (omega arith) (omega arith) (omega arith)
      (omega arith)

abbrev chip : Dds
chip = record { reciprocal = 0; shift = 0; current_ftw = 0 }

frequency_ftw-close_example :
    140_740_000 * 2 ^ 32 ≤ (frequency_ftw (set_clock (pos 0) chip) 140_740_000 + 5) * 1_800_000_000
    × frequency_ftw (set_clock (pos 0) chip) 140_740_000 * 1_800_000_000
      ≤ 140_740_000 * 2 ^ 32 + 2 ^ 28
frequency_ftw-close_example = frequency_ftw-close chip 140_740_000 (omega arith)

check_fan_state-Locked_example :
    Locked
      (is_unsafe reading (setup declared))
      (setup declared)
      (check_fan_state 1000 reading (setup declared))
check_fan_state-Locked_example = check_fan_state-Locked 1000 reading (setup declared)

abbrev idle_pass : ℕ → Pass
idle_pass now = record {
  pressed = false;
  now = now;
  delay = [];
  message_start = 0;
  message = [];
  arrivals = [];
  literal = 7;
  after = record { now = now; reading = reading; received = [] };
}

idle_pass-IsIdle : (now : ℕ) → IsIdle (idle_pass now)
idle_pass-IsIdle now = record { released = refl; silent = refl }

abbrev on_key : Sketch
on_key = record (setup declared) {
  keying = record (setup declared).keying { key_down_active = true };
}

loops-receives_example :
    (t : Sketch) × (loops (idle_pass 1000 ∷ idle_pass 1200 ∷ idle_pass 1400 ∷ []) on_key ≡ some t
      × t.keying.key_down_active ≡ false)
unfolding setup declared
loops-receives_example =
    loops-receives (idle_pass 1000) (idle_pass 1200 ∷ idle_pass 1400 ∷ []) on_key
      (idle_pass-IsIdle 1000)
      (and_idle (idle_pass-IsIdle 1200) (and_idle (idle_pass-IsIdle 1400) none_left)) refl refl refl
      (omega arith) (omega arith) (there (here (omega arith)))

loops-stuck_example :
    (t : Sketch) × (loops (idle_pass (2 ^ 31) ∷ idle_pass (2 ^ 31 + 60_000) ∷ []) on_key ≡ some t
      × t.keying.key_down_active ≡ true)
unfolding setup declared
loops-stuck_example =
    loops-stuck (idle_pass (2 ^ 31) ∷ idle_pass (2 ^ 31 + 60_000) ∷ []) on_key
      (and_late (idle_pass-IsIdle (2 ^ 31)) (omega arith)
        (and_late (idle_pass-IsIdle (2 ^ 31 + 60_000)) (omega arith) no_pass))
      refl refl refl

-- A message in its first tone, at the end of an average.
abbrev first_tone : Message
first_tone = record { i = 0; n = 0; t_start = 1000; last_ftw = 0 }

abbrev in_message : Sketch
in_message = record (setup declared) {
  digital = record late { ftx_millis_to_end = pos 14_000 };
  avg_counter = 649;
}

in_message_waits : is_waiting 1040 first_tone in_message ≡ true
unfolding is_waiting setup declared
in_message_waits = refl

high_swr : is_unsafe reading (measured (idle_pass 1040).after in_message) ≡ true
unfolding setup declared report ◌+ℤ◌
high_swr = refl

on_moments-lockout_example :
    (t : Sketch) × (on_moments
          ((idle_pass 1040).after ∷ (idle_pass 1080).after ∷ [])
          (waiting first_tone in_message)
        ≡ ended t
      × t.power.tx_power_on ≡ false
      × t.digital.digi_tx_on ≡ false
      × ((l : List Effect) × (ftw : ℕ) × t.effects ≡ l ++ set_ftw ftw false ∷ []))
on_moments-lockout_example =
    on_moments-lockout (idle_pass 1040).after (idle_pass 1080).after first_tone in_message
      in_message_waits refl (omega arith) high_swr nothing (omega arith)
