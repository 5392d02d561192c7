-- ===== src/Encode/Examples.antt =====
-- EncodeMessage on concrete runs of the encoder.
use sdr_plugin_txlink_wsjt_x.Base.{
  ◌≡◌, ◌≢◌, ◌⊎◌, refl, List, [], ◌∷◌, ◌++◌, true, false, Bytes, codes, arith, length, take, drop,
  replicate,
}
use sdr_plugin_txlink_wsjt_x.Encode.{
  ft8, ft4, ft4_tx_no_symbols, ChildRun, Paths, until_nul, join_output, get_lines,
  find_last_not_space, remove_trailing_spaces, remove_spaces, command, encode_message,
  ft8_tx_no_symbols,
}
use sdr_plugin_txlink_wsjt_x.Encode.Symbols.{
  Ran, coded_ft8, coded_ft4, encode_message-length, encode_message_good, encode_message_silent,
}

abbrev paths : Paths
paths = record { ft8_path = codes "ft8code.exe"; ft4_path = codes "ft4code.exe" }

abbrev cq : Bytes
cq = codes "CQ K1ABC FN42"

-- The third line: 42 columns, then the decoded message.
abbrev third_line : Bytes
third_line = replicate 42 b' ' ++ codes "CQ K1ABC FN42  "

abbrev tones : Bytes
tones = replicate 79 b'3'

abbrev output : List Bytes → Bytes
output [] = []
output (l ∷ ls) = l ++ b'\n' ∷ output ls

-- Behind the third line, the symbols line is the 13th.
abbrev behind : List Bytes
behind = replicate 12 [] ++ tones ∷ []

abbrev run_of : List Bytes → ChildRun
run_of ls = record {
  pipe_created = true;
  handle_set = true;
  process_created = true;
  output = output ls ∷ [];
}

abbrev good : Bytes → ChildRun
good line = run_of ([] ∷ [] ∷ third_line ∷ behind)

good-Ran : Ran (good (command (codes "ft8code.exe") cq)) ([] ∷ [] ∷ third_line ∷ behind)
unfolding until_nul join_output get_lines
good-Ran = (refl, refl, refl, refl)

cq_ne : cq ≢ codes "TUNE"
cq_ne e = absurd (ground (arith, e))

no_spaces : length (remove_spaces tones) ≡ 79
unfolding remove_spaces
no_spaces = refl

encode_message_good_example : encode_message paths good ft8 cq ≡ record {
  symbols = remove_spaces tones;
  decode_msg = remove_trailing_spaces (take 40 (drop 42 third_line));
}
encode_message_good_example =
    encode_message_good coded_ft8 paths good cq [] [] third_line behind good-Ran cq_ne (omega arith)
      tones refl no_spaces

-- An encoder that prints three lines and ends.
abbrev silent : Bytes → ChildRun
silent line = run_of ([] ∷ [] ∷ third_line ∷ [])

silent-Ran : Ran (silent (command (codes "ft4code.exe") cq)) ([] ∷ [] ∷ third_line ∷ [])
unfolding until_nul join_output get_lines
silent-Ran = (refl, refl, refl, refl)

encode_message_silent_example : encode_message paths silent ft4 cq ≡ record {
  symbols = ft4_tx_no_symbols;
  decode_msg = remove_trailing_spaces (take 40 (drop 42 third_line));
}
encode_message_silent_example =
    encode_message_silent coded_ft4 paths silent cq [] [] third_line [] silent-Ran cq_ne
      (omega arith) (omega arith)

abbrev fails : Bytes → ChildRun
fails line = record { pipe_created = false; handle_set = true; process_created = true; output = [] }

encode_message-length_example :
    ((ft4 ≢ ft4) × (length (encode_message paths fails ft4 cq).symbols ≡ 79))
    ⊎ ((ft4 ≡ ft4)
        × ((length (encode_message paths fails ft4 cq).symbols ≡ 105)
            ⊎ ((encode_message paths fails ft4 cq).symbols ≡ ft8_tx_no_symbols)))
encode_message-length_example = encode_message-length paths fails ft4 cq

trimmed : remove_trailing_spaces (codes "CQ DX  ") ≡ codes "CQ DX"
unfolding remove_trailing_spaces find_last_not_space
trimmed = refl
