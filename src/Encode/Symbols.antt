-- ===== src/Encode/Symbols.antt =====
-- What EncodeMessage returns: the number of symbols, a good run, and an output that ends early.
use sdr_plugin_txlink_wsjt_x.Base.{
  ℕ, suc, ◌+◌, ◌-◌, ◌≤◌, ◌<◌, ◌≡◌, ◌≢◌, refl, sym, ap, ◌∙◌, ◌⊎◌, inl, inr, List, [], ◌∷◌, some,
  true, false, Bytes, codes, str_eq, str_eq_iff, str_eq_ne, ==_iff, arith, length, get_elem?, take,
  drop, length-replicate, leb, ◌==◌, Bool-cases, not, ◌&&◌,
}
use sdr_plugin_txlink_wsjt_x.Encode.{
  ft8, ft4, ft8_tx_no_symbols, ft4_tx_no_symbols, tx_no_symbols, ChildRun, Paths, Scan, short_line,
  scanned, is_symbols_line, scan_lines, finish, remove_spaces, remove_trailing_spaces, get_lines,
  join_output, command, encode_in, encode_message, is_nil,
}
use sdr_plugin_txlink_wsjt_x.Encode.Lines.{scan_lines_reaches, scan_lines_runs_out}

finish-length :
    (required : ℕ) (sc : Scan)
    → (length (finish required sc).symbols ≡ required)
      ⊎ ((finish required sc).symbols ≡ tx_no_symbols)
unfolding finish
finish-length required short_line = inr refl
finish-length required (scanned symbols decoded) =
    elim (Bool-cases (not (is_nil symbols) && length (remove_spaces symbols) == required)) [
      | inl e ↦ rw e (inl (ground arith))
      | inr e ↦ rw e (inr refl)
    ]

encode_in-length :
    (child : Bytes → ChildRun) (mode symbols : Bytes) (required : ℕ) (path message : Bytes)
    → length symbols ≡ required
    → (length (encode_in child mode symbols required path message).symbols ≡ required)
      ⊎ ((encode_in child mode symbols required path message).symbols ≡ tx_no_symbols)
unfolding encode_in
encode_in-length child mode symbols required path message h =
    let run : ChildRun = child (command path message) in
    let last =
      finish-length required
        (scan_lines mode (get_lines [] (join_output run.output)) 0 symbols []) in
    elim (Bool-cases (str_eq message (codes "TUNE"))) [
      | inl t ↦ rw t (inl h)
      | inr t ↦ rw t (elim (Bool-cases run.pipe_created) [
        | inr c ↦ rw c (inl h)
        | inl c ↦ rw c (elim (Bool-cases run.handle_set) [
          | inr d ↦ rw d (inl h)
          | inl d ↦
              rw d
                (elim (Bool-cases run.process_created) [ inr f ↦ rw f (inl h) | inl f ↦ rw f last ])
        ])
      ])
    ]

pub ft8_ne_ft4 : ft8 ≢ ft4
unfolding str_eq
ft8_ne_ft4 e = cc ((str_eq_iff ft8 ft4).1 e)

-- In every mode but FT4 EncodeMessage returns 79 symbols, on every path; in FT4 it returns 105, or
-- else the fallback of the error paths, which is the one of FT8.
pub encode_message-length :
    (paths : Paths) (child : Bytes → ChildRun) (mode message : Bytes)
    → ((mode ≢ ft4) × (length (encode_message paths child mode message).symbols ≡ 79))
      ⊎ ((mode ≡ ft4)
          × ((length (encode_message paths child mode message).symbols ≡ 105)
              ⊎ ((encode_message paths child mode message).symbols ≡ ft8_tx_no_symbols)))
unfolding encode_message
encode_message-length paths child mode message = elim (Bool-cases (str_eq mode ft8)) [
  | inl e ↦
      let is_ft8 : mode ≡ ft8 = (str_eq_iff mode ft8).0 e in
      rw e (
        inl (
          (λ h. ft8_ne_ft4 (sym is_ft8 ∙ h)),
          elim (encode_in-length child mode ft8_tx_no_symbols 79 paths.ft8_path message
              (length-replicate {A = ℕ} 79 b'0')) [
                | inl h ↦ h
                | inr h ↦ rw h (length-replicate {A = ℕ} 79 b'0')
              ],
        ))
  | inr e ↦ rw e (elim (Bool-cases (str_eq mode ft4)) [
    | inl f ↦ rw f (
        inr (
          (str_eq_iff mode ft4).0 f,
          encode_in-length child mode ft4_tx_no_symbols 105 paths.ft4_path message
              (length-replicate {A = ℕ} 105 b'0'),
        ))
    | inr f ↦ rw f (inl (not_ft4 f, length-replicate {A = ℕ} 79 b'0'))
  ])
]
  where
    not_ft4 : str_eq mode ft4 ≡ false → mode ≢ ft4
    not_ft4 f h = let same = (str_eq_iff mode ft4).1 h in ground (arith, f, same)

-- The tones of FT8, for whatever message.
pub encode_message-length-ft8 :
    (paths : Paths) (child : Bytes → ChildRun) (message : Bytes)
    → length (encode_message paths child ft8 message).symbols ≡ 79
encode_message-length-ft8 paths child message =
    elim (encode_message-length paths child ft8 message) [
      | inl h ↦ h.1
      | inr h ↦ absurd (ft8_ne_ft4 h.0)
    ]

-- A run in which every call of the system succeeds, and the lines of its output.
abbrev pub Ran : ChildRun → List Bytes → Type 0
Ran run lines =
    (run.pipe_created ≡ true)
    × (run.handle_set ≡ true)
    × (run.process_created ≡ true)
    × (get_lines [] (join_output run.output) ≡ lines)

module _ (child : Bytes → ChildRun) (mode symbols path message : Bytes) (required : ℕ)
    (lines : List Bytes) (ran : Ran (child (command path message)) lines)
    (no_tune : message ≢ codes "TUNE") where
  encode_in-Ran :
      encode_in child mode symbols required path message
      ≡ finish required (scan_lines mode lines 0 symbols [])
  unfolding encode_in
  encode_in-Ran =
      let other : str_eq message (codes "TUNE") ≡ false =
        str_eq_ne message (codes "TUNE") no_tune in
      rw (other, ran.0, ran.1, ran.2, ran.3)

ft8_line : (n : ℕ) → is_symbols_line ft8 n ≡ (n == 16)
unfolding str_eq
ft8_line n = ground arith

ft4_line : (n : ℕ) → is_symbols_line ft4 n ≡ (n == 22)
unfolding str_eq
ft4_line n = ground arith

-- The first three lines: the message that is decoded stands in columns 42 to 81 of the third.
scan_lines-head :
    (mode l1 l2 l3 : Bytes) (rest : List Bytes) (symbols : Bytes)
    → 42 ≤ length l3
    → scan_lines mode (l1 ∷ l2 ∷ l3 ∷ rest) 0 symbols []
      ≡ scan_lines mode rest 3 symbols (take 40 (drop 42 l3))
unfolding scan_lines
scan_lines-head mode l1 l2 l3 rest symbols w =
    let long : leb 42 (length l3) ≡ true = ground arith in ground (arith, long)

-- The two modes that have an encoder.
pub data Coded : Type 0 where
  coded_ft8 coded_ft4 : Coded

abbrev pub mode_of : Coded → Bytes
mode_of coded_ft8 = ft8
mode_of coded_ft4 = ft4

abbrev pub path_of : Coded → Paths → Bytes
path_of coded_ft8 paths = paths.ft8_path
path_of coded_ft4 paths = paths.ft4_path

abbrev pub symbols_line : Coded → ℕ
symbols_line coded_ft8 = 16
symbols_line coded_ft4 = 22

abbrev pub symbols_count : Coded → ℕ
symbols_count coded_ft8 = 79
symbols_count coded_ft4 = 105

abbrev pub no_symbols : Coded → Bytes
no_symbols coded_ft8 = ft8_tx_no_symbols
no_symbols coded_ft4 = ft4_tx_no_symbols

Coded-line : (c : Coded) (n : ℕ) → is_symbols_line (mode_of c) n ≡ (n == symbols_line c)
Coded-line coded_ft8 n = ft8_line n
Coded-line coded_ft4 n = ft4_line n

encode_message-Coded :
    (c : Coded) (paths : Paths) (child : Bytes → ChildRun) (message : Bytes)
    → encode_message paths child (mode_of c) message
      ≡ encode_in child (mode_of c) (no_symbols c) (symbols_count c) (path_of c paths) message
unfolding encode_message str_eq
encode_message-Coded coded_ft8 paths child message = refl
encode_message-Coded coded_ft4 paths child message = refl

Coded-offset : (c : Coded) → 3 + suc (symbols_line c - 4) ≡ symbols_line c
Coded-offset coded_ft8 = refl
Coded-offset coded_ft4 = refl

Coded-count : (c : Coded) → 0 < symbols_count c
Coded-count coded_ft8 = omega arith
Coded-count coded_ft4 = omega arith

finish-scanned :
    (required : ℕ) (line decoded : Bytes)
    → 0 < required
    → length (remove_spaces line) ≡ required
    → finish required (scanned line decoded)
      ≡ record { symbols = remove_spaces line; decode_msg = remove_trailing_spaces decoded }
unfolding finish
finish-scanned required [] decoded p h = absurd (omega arith)
finish-scanned required (d ∷ line) decoded p h = rw ((==_iff _ required).1 h)

finish-no_symbols :
    (c : Coded) (decoded : Bytes)
    → finish (symbols_count c) (scanned (no_symbols c) decoded)
      ≡ record { symbols = no_symbols c; decode_msg = remove_trailing_spaces decoded }
unfolding finish
finish-no_symbols coded_ft8 decoded = refl
finish-no_symbols coded_ft4 decoded = refl

module _ (c : Coded) (paths : Paths) (child : Bytes → ChildRun) (message l1 l2 l3 : Bytes)
    (rest : List Bytes)
    (ran : Ran (child (command (path_of c paths) message)) (l1 ∷ l2 ∷ l3 ∷ rest))
    (no_tune : message ≢ codes "TUNE") (long : 42 ≤ length l3) where
  encode_message-scan :
      encode_message paths child (mode_of c) message
      ≡ finish
          (symbols_count c)
          (scan_lines (mode_of c) rest 3 (no_symbols c) (take 40 (drop 42 l3)))
  encode_message-scan =
      encode_message-Coded c paths child message
      ∙ encode_in-Ran child (mode_of c) (no_symbols c) (path_of c paths) message (symbols_count c) _
          ran no_tune
      ∙ ap (finish (symbols_count c))
          (scan_lines-head (mode_of c) l1 l2 l3 rest (no_symbols c) long)

  -- In FT8 or FT4, for a message that is not TUNE: if every call of the system succeeds, the third
  -- line of the output has at least 42 characters, and line 16 (FT8) or 22 (FT4) has the mode's
  -- number of tones besides its spaces, then these tones are returned, and the decoded message is
  -- columns 42 to 81 of the third line without trailing spaces.
  pub encode_message_good :
      (line : Bytes)
      → get_elem? rest (symbols_line c - 4) ≡ some line
      → length (remove_spaces line) ≡ symbols_count c
      → encode_message paths child (mode_of c) message ≡ record {
        symbols = remove_spaces line;
        decode_msg = remove_trailing_spaces (take 40 (drop 42 l3));
      }
  encode_message_good line g h =
      encode_message-scan
      ∙ ap (finish (symbols_count c)) (
          scan_lines_reaches (mode_of c) (symbols_line c) (Coded-line c) rest 3 (symbols_line c - 4)
            (no_symbols c) (take 40 (drop 42 l3)) line (omega arith) (Coded-offset c) g)
      ∙ finish-scanned (symbols_count c) line (take 40 (drop 42 l3)) (Coded-count c) h

  -- In FT8 or FT4, for a message that is not TUNE: if every call of the system succeeds, the third
  -- line of the output has at least 42 characters, and the output ends before line 16 (FT8) or 22
  -- (FT4), the idle tones are returned with the decoded message of the third line, as for a
  -- success.
  pub encode_message_silent :
      3 + length rest < symbols_line c
      → encode_message paths child (mode_of c) message ≡ record {
        symbols = no_symbols c;
        decode_msg = remove_trailing_spaces (take 40 (drop 42 l3));
      }
  encode_message_silent h =
      encode_message-scan
      ∙ ap (finish (symbols_count c)) (
          scan_lines_runs_out (mode_of c) (symbols_line c) (Coded-line c) rest 3 (no_symbols c)
            (take 40 (drop 42 l3)) (omega arith) h)
      ∙ finish-no_symbols c (take 40 (drop 42 l3))
