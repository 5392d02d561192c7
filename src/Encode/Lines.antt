-- ===== src/Encode/Lines.antt =====
-- How EncodeMessage walks the lines of the encoder's output.
use sdr_plugin_txlink_wsjt_x.Base.{
  ℕ, zero, suc, ◌+◌, ◌≤◌, ◌<◌, ◌≡◌, refl, List, [], ◌∷◌, some, true, false, Bytes, arith, length,
  get_elem?, ◌==◌,
}
use sdr_plugin_txlink_wsjt_x.Encode.{scanned, is_symbols_line, scan_lines}

-- `last` is the number of the symbols line: 16 for FT8, 22 for FT4.
module _ (mode : Bytes) (last : ℕ) (stops : (n : ℕ) → is_symbols_line mode n ≡ (n == last)) where
  -- Behind the third line the scan ends at the symbols line, whatever stands in between.
  pub scan_lines_reaches :
      (lines : List Bytes) (n i : ℕ) (symbols decoded line : Bytes)
      → 3 ≤ n
      → n + suc i ≡ last
      → get_elem? lines i ≡ some line
      → scan_lines mode lines n symbols decoded ≡ scanned line decoded
  unfolding scan_lines
  scan_lines_reaches [] n i symbols decoded line h e g = cc
  scan_lines_reaches (l ∷ lines) n zero symbols decoded line h e g =
      let behind : (n + 1 == 3) ≡ false = ground arith in
      let here : (n + 1 == last) ≡ true = ground arith in
      rw (behind, stops (n + 1), here) (ground arith)
  scan_lines_reaches (l ∷ lines) n (suc i) symbols decoded line h e g =
      let behind : (n + 1 == 3) ≡ false = ground arith in
      let not_yet : (n + 1 == last) ≡ false = ground arith in
      rw (behind, stops (n + 1), not_yet)
        (scan_lines_reaches lines (n + 1) i symbols decoded line (omega arith) (omega arith) g)

  -- An output that ends before that line leaves the default symbols.
  pub scan_lines_runs_out :
      (lines : List Bytes) (n : ℕ) (symbols decoded : Bytes)
      → 3 ≤ n
      → n + length lines < last
      → scan_lines mode lines n symbols decoded ≡ scanned symbols decoded
  unfolding scan_lines
  scan_lines_runs_out [] n symbols decoded h e = refl
  scan_lines_runs_out (l ∷ lines) n symbols decoded h e =
      let behind : (n + 1 == 3) ≡ false = ground arith in
      let not_yet : (n + 1 == last) ≡ false = ground arith in
      rw (behind, stops (n + 1), not_yet)
        (scan_lines_runs_out lines (n + 1) symbols decoded (omega arith) (omega arith))
