-- ===== src/Encode.antt =====
-- SDRunoPlugin_TXLink/UDP_Server.cpp: EncodeMessage and removeTrailingSpaces. The tones are made
-- by WSJT-X's own ft8code.exe or ft4code.exe, a program outside the repository: what a run of it
-- gives is an argument, a function of the command line.
pub mod Trim
pub mod Lines
pub mod Symbols
pub mod Examples
use sdr_plugin_txlink_wsjt_x.Base.{
  ℕ, zero, suc, ◌+◌, List, [], ◌∷◌, ◌++◌, Option, none, some, Bool, true, false, not, ◌&&◌, ◌||◌,
  Bytes, codes, str_eq, length, take, drop, replicate, leb, ◌==◌, if◌then◌else◌,
}

-- `find_last_not_of(' ')`.
unfoldable pub find_last_not_space : Bytes → Option ℕ
find_last_not_space [] = none
find_last_not_space (c ∷ s) = elim (find_last_not_space s) [
  | some i ↦ some (suc i)
  | none ↦ if c == b' ' then none else some 0
]

unfoldable pub remove_trailing_spaces : Bytes → Bytes
unfolding find_last_not_space
remove_trailing_spaces str = elim (find_last_not_space str) [
  | some i ↦ take (i + 1) str
  | none ↦ []
]

abbrev pub ft8 : Bytes
ft8 = codes "FT8"

abbrev pub ft4 : Bytes
ft4 = codes "FT4"

abbrev pub ft8_tx_no_symbols : Bytes
ft8_tx_no_symbols = replicate 79 b'0'

abbrev pub ft4_tx_no_symbols : Bytes
ft4_tx_no_symbols = replicate 105 b'0'

-- The global that the error paths return. Nothing assigns it after its initialisation.
abbrev pub tx_no_symbols : Bytes
tx_no_symbols = ft8_tx_no_symbols

-- One run of the encoder: whether each call of the system succeeds, and the pieces that
-- `ReadFile` returns until it returns none.
pub record ChildRun : Type 0 where
  pub pipe_created : Bool
  pub handle_set : Bool
  pub process_created : Bool
  pub output : List Bytes

pub record Paths : Type 0 where
  pub ft8_path : Bytes
  pub ft4_path : Bytes

-- The symbols, and the new value of `strDecodeMsg`.
pub record Encoded : Type 0 where
  pub symbols : Bytes
  pub decode_msg : Bytes

-- `output += buffer` with the buffer as a C string.
unfoldable pub until_nul : Bytes → Bytes
until_nul [] = []
until_nul (c ∷ s) = let rest = c ∷ until_nul s in if c == 0 then [] else rest

unfoldable pub join_output : List Bytes → Bytes
join_output [] = []
join_output (b ∷ bs) = until_nul b ++ join_output bs

-- `std::getline` until it fails: a last line with no newline counts, if it is not empty.
unfoldable pub get_lines : Bytes → Bytes → List Bytes
get_lines [] [] = []
get_lines (d ∷ line) [] = (d ∷ line) ∷ []
get_lines line (c ∷ s) =
    let ended = line ∷ get_lines [] s in
    let more = get_lines (line ++ c ∷ []) s in if c == b'\n' then ended else more

abbrev pub is_space : ℕ → Bool
is_space c = c == b' ' || (leb 9 c && leb c 13)

unfoldable pub remove_spaces : Bytes → Bytes
remove_spaces [] = []
remove_spaces (c ∷ s) = let rest = remove_spaces s in if is_space c then rest else c ∷ rest

-- The loop over the lines ends at the symbols line, at the end of the text, or by the early
-- return at a short third line.
pub data Scan : Type 0 where
  short_line : Scan
  scanned : Bytes → Bytes → Scan

abbrev pub is_symbols_line : Bytes → ℕ → Bool
is_symbols_line mode n = (str_eq mode ft8 && n == 16) || (str_eq mode ft4 && n == 22)

unfoldable pub scan_lines : Bytes → List Bytes → ℕ → Bytes → Bytes → Scan
scan_lines mode [] count symbols decoded = scanned symbols decoded
scan_lines mode (line ∷ lines) count symbols decoded =
    let n = count + 1 in
    let decoded' = if n == 3 then take 40 (drop 42 line) else decoded in
    let rest = scan_lines mode lines n symbols decoded' in
    if n == 3 && not (leb 42 (length line))
    then short_line
    else if is_symbols_line mode n
    then scanned line decoded'
    else rest

abbrev pub is_nil : Bytes → Bool
is_nil [] = true
is_nil (c ∷ s) = false

abbrev pub symbols_error : Encoded
symbols_error = record {
  symbols = tx_no_symbols;
  decode_msg = codes "ftxcode.exe symbols error - unexpected output.";
}

-- The final processing of the symbols.
unfoldable pub finish : ℕ → Scan → Encoded
unfolding remove_spaces remove_trailing_spaces
finish required short_line = record {
  symbols = tx_no_symbols;
  decode_msg = codes "Encode error L3 - short line.";
}
finish required (scanned symbols decoded) =
    if not (is_nil symbols) && length (remove_spaces symbols) == required
    then record { symbols = remove_spaces symbols; decode_msg = remove_trailing_spaces decoded }
    else symbols_error

-- The command line: the quoted path and the quoted message.
unfoldable pub command : Bytes → Bytes → Bytes
command path message =
    (b'"' ∷ []) ++ (path ++ ((b'"' ∷ b' ' ∷ b'"' ∷ []) ++ (message ++ b'"' ∷ [])))

-- `EncodeMessage` behind the choice of the mode: the mode's default symbols and their number.
unfoldable pub encode_in : (Bytes → ChildRun) → Bytes → Bytes → ℕ → Bytes → Bytes → Encoded
unfolding until_nul join_output get_lines scan_lines finish command
encode_in child mode symbols required path message =
    let run = child (command path message) in
    let lines = get_lines [] (join_output run.output) in
    if str_eq message (codes "TUNE")
    then record { symbols = symbols; decode_msg = codes "TUNE" }
    else if not run.pipe_created
    then record { symbols = symbols; decode_msg = codes "CreatePipe failed." }
    else if not run.handle_set
    then record { symbols = symbols; decode_msg = codes "SetHandleInformation failed." }
    else if not run.process_created
    then record { symbols = symbols; decode_msg = codes "CreateProcess failed." }
    else finish required (scan_lines mode lines 0 symbols [])

unfoldable pub encode_message : Paths → (Bytes → ChildRun) → Bytes → Bytes → Encoded
unfolding encode_in
encode_message paths child mode message =
    if str_eq mode ft8
    then encode_in child mode ft8_tx_no_symbols 79 paths.ft8_path message
    else if str_eq mode ft4
    then encode_in child mode ft4_tx_no_symbols 105 paths.ft4_path message
    else record { symbols = tx_no_symbols; decode_msg = codes "Invalid WSJTX_TXmodeStr" }
