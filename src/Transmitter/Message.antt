-- ===== src/Transmitter/Message.antt =====
-- TXlink4_Nano/TXlink4_Nano.ino: `DigitalTXmsg` in FT8 and FT4, as steps. A `Moment` is one look at
-- the clock in the loop that waits for the end of a tone, with the background work behind it; the
-- time does not change within it.
pub mod Stop
use sdr_plugin_txlink_wsjt_x.Base.{
  ℕ, zero, suc, ◌+◌, ◌-◌, ◌*◌, ◌/◌, ◌%◌, ◌^◌, List, [], ◌∷◌, ◌++◌, Bool, true, false, not, ◌&&◌,
  ◌||◌, Bytes, ℤ, pos, negsuc, ◌+ℤ◌, ◌-ℤ◌, ltb_ℤ, leb, ltb, ◌==◌, map, to_signed, if◌then◌else◌,
  pos_part,
}
use sdr_plugin_txlink_wsjt_x.Form.Frequency.{eq_ℤ}
use sdr_plugin_txlink_wsjt_x.Transmitter.{Sketch, Digital, Tones, Effect, set_ftw}
use sdr_plugin_txlink_wsjt_x.Transmitter.Numbers.{wrap}
use sdr_plugin_txlink_wsjt_x.Transmitter.Chip.{frequency_ftw}
use sdr_plugin_txlink_wsjt_x.Transmitter.Commands.{set_frequency_hz_x10}
use sdr_plugin_txlink_wsjt_x.Transmitter.Serial.{process_serial_in}
use sdr_plugin_txlink_wsjt_x.Transmitter.Start.{adjust_start}
use sdr_plugin_txlink_wsjt_x.Transmitter.Gauss.{ftw_incr, transition}
use sdr_plugin_txlink_wsjt_x.Transmitter.Safety.{Reading, swr_measure, elapsed, as_unsigned}

pub record Moment : Type 0 where
  pub now : ℕ
  pub reading : Reading
  pub received : Bytes

-- The local variables of the loop, in the tone `i`.
pub record Message : Type 0 where
  pub i : ℕ
  pub n : ℕ
  pub t_start : ℕ
  pub last_ftw : ℕ

pub data Progress : Type 0 where
  waiting : Message → Sketch → Progress
  ended : Sketch → Progress

-- `SWRmeasure` and `ProcessSerialIn`.
unfoldable pub background : Moment → Sketch → Sketch
background m s = process_serial_in m.received (swr_measure m.now m.reading s)

-- (CurFreq + FTxTxDF) * 10, in 32 bits.
abbrev pub tx_freq_x10 : Sketch → ℕ
tx_freq_x10 s = (s.cur_freq + as_unsigned s.digital.ftx_tx_df) % 2 ^ 32 * 10 % 2 ^ 32

-- `symbol_count` beside an `unsigned int`; in RTTY it is -1.
abbrev pub as_count : ℤ → ℕ
as_count (pos n) = n
as_count (negsuc n) = 65535 - n

-- `tx_buffer[i]`; behind the array, where only a change to RTTY leads, a zero.
abbrev pub symbol_at : List ℕ → ℕ → ℕ
symbol_at [] i = 0
symbol_at (x ∷ l) zero = x
symbol_at (x ∷ l) (suc i) = symbol_at l i

-- `nextFTW` of the tone `i`.
unfoldable pub next_ftw : ℕ → Sketch → ℕ
next_ftw i s =
    (frequency_ftw s.dds (tx_freq_x10 s) + ftw_incr s.tones (symbol_at s.digital.tx_buffer i))
    % 2 ^ 32

abbrev pub words : List ℕ → List Effect
words l = map (λ ftw. set_ftw ftw true) l

-- The end of the loop: no RF, and the key is up.
unfoldable pub end_message : Sketch → Sketch
end_message s =
    let t : Sketch = set_frequency_hz_x10 (tx_freq_x10 s) false s in
    record t { digital = record t.digital { digi_tx_on = false } }

-- The test of the for loop, and the start of the tone: the word, or the transition to it.
unfoldable pub start_tone : Message → Sketch → Progress
unfolding end_message next_ftw
start_tone g s =
    let next : ℕ = next_ftw g.i s in
    let sent : List ℕ = if g.i == 0 then next ∷ [] else transition s.tones g.last_ftw next in
    if ltb g.i (as_count s.tones.symbol_count)
    then waiting (record g { last_ftw = next }) (record s { effects = s.effects ++ words sent })
    else ended (end_message s)

-- `waitFor`.
abbrev pub wait_for : ℕ → Tones → ℕ
wait_for i t =
    if leb ((as_count t.symbol_count + 65535) % 65536) i
    then t.tone_duration
    else elapsed t.tone_duration (t.g_tran_steps / (1000 / t.g_tran_micros_per_step) / 2)

-- The condition of the loop that waits.
unfoldable pub is_waiting : ℕ → Message → Sketch → Bool
is_waiting now g s =
    ltb (elapsed (elapsed now g.t_start) (g.n * s.tones.tone_duration % 2 ^ 16))
      (wait_for g.i s.tones)
    && ltb_ℤ (pos 0) s.digital.ftx_millis_to_end

abbrev pub is_changed : Sketch → Bool
is_changed s =
    s.digital.ftx_tx_msg_changed || not (eq_ℤ s.digital.ftx_tx_df s.digital.ftx_tx_last_df)

-- Another message or offset: the start in the time that is left, in the middle of the loop.
unfoldable pub restart : ℕ → Message → Sketch → Message × Sketch
restart now g s =
    let d : Digital = record s.digital {
      ftx_millis_to_end =
          to_signed 4 (elapsed (as_unsigned s.digital.ftx_millis_to_end) (elapsed now g.t_start));
      ftx_tx_msg_changed = false;
      ftx_tx_last_df = s.digital.ftx_tx_df;
    } in
    (
      record g { i = as_count (adjust_start d s.tones); n = 65535; t_start = now },
      record s { digital = d },
    )

-- Behind the wait: the count, the tune mode, the end of the period, the next tone.
unfoldable pub leave_tone : ℕ → Message → Sketch → Progress
unfolding start_tone end_message
leave_tone now g s =
    let i : ℕ = if s.digital.tune_chk == 0 then 1 else g.i in
    if not s.digital.digi_tx_on
      && ltb (as_unsigned s.digital.ftx_millis_to_end) (elapsed now g.t_start)
    then ended (end_message s)
    else start_tone (record g { i = (i + 1) % 2 ^ 16; n = (g.n + 1) % 2 ^ 16 }) s

unfoldable pub on_moment : Moment → Progress → Progress
unfolding background is_waiting restart leave_tone
on_moment m (ended s) = ended s
on_moment m (waiting g s) =
    let served : Sketch = background m s in
    let again : Message × Sketch = restart m.now g served in
    if is_waiting m.now g s
    then if is_changed served then leave_tone m.now again.0 again.1 else waiting g served
    else leave_tone m.now g s

unfoldable pub on_moments : List Moment → Progress → Progress
unfolding on_moment
on_moments [] p = p
on_moments (m ∷ l) p = on_moments l (on_moment m p)

-- The start of `DigitalTXmsg` in FT8 and FT4, at the time `now`.
unfoldable pub begin_message : ℕ → Sketch → Progress
unfolding start_tone
begin_message now s =
    let t : Sketch = record s {
      digital = record s.digital {
        ftx_tx_last_df = s.digital.ftx_tx_df;
        ftx_tx_msg_changed = false;
      };
    } in
    start_tone
      (record {
        i = as_count (adjust_start t.digital t.tones);
        n = 0;
        t_start = now;
        last_ftw = frequency_ftw t.dds (tx_freq_x10 t);
      })
      t
