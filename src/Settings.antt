-- ===== src/Settings.antt =====
-- SDRunoPlugin_TXLink/SDRunoPlugin_TXLinkForm.cpp: the settings that the form reads from SDRuno's
-- configuration, checks and writes back: GetValid..., LoadSplitMode and SaveSplitMode.
-- A key that SDRuno does not have reads as the empty text.
pub mod Valid
pub mod Examples
use sdr_plugin_txlink_wsjt_x.Base.{
  ℕ, zero, suc, ◌+◌, ◌-◌, ◌*◌, ◌^◌, [], ◌∷◌, Option, none, some, Bool, true, false, not, ◌&&◌, ◌||◌,
  Bytes, ℤ, pos, negsuc, sub_ℕ, ltb_ℤ, codes, str_eq, to_string, leb, ltb, ◌==◌, if◌then◌else◌,
}
use sdr_plugin_txlink_wsjt_x.Encode.{is_nil, is_space}

-- What `std::stoi` does: a 32-bit int, or one of its two exceptions.
pub data Parsed : Type 0 where
  value : ℤ → Parsed
  invalid_argument out_of_range : Parsed

abbrev pub is_digit : ℕ → Bool
is_digit c = leb b'0' c && leb c b'9'

-- The number that the leading digits denote, after `acc`.
unfoldable pub leading_digits : ℕ → Bytes → ℕ
leading_digits acc [] = acc
leading_digits acc (c ∷ s) =
    let more = leading_digits (10 * acc + (c - b'0')) s in if is_digit c then more else acc

abbrev pub starts_with_digit : Bytes → Bool
starts_with_digit [] = false
starts_with_digit (c ∷ s) = is_digit c

unfoldable pub parse_positive : Bytes → Parsed
unfolding leading_digits
parse_positive s =
    let n = leading_digits 0 s in
    if not (starts_with_digit s)
    then invalid_argument
    else if ltb n (2 ^ 31)
    then value (pos n)
    else out_of_range

unfoldable pub parse_negative : Bytes → Parsed
unfolding leading_digits
parse_negative s =
    let n = leading_digits 0 s in
    if not (starts_with_digit s)
    then invalid_argument
    else if leb n (2 ^ 31)
    then value (sub_ℕ 0 n)
    else out_of_range

unfoldable pub parse_sign : Bytes → Parsed
unfolding parse_positive parse_negative
parse_sign [] = invalid_argument
parse_sign (c ∷ s) =
    if c == b'-'
    then parse_negative s
    else if c == b'+'
    then parse_positive s
    else parse_positive (c ∷ s)

unfoldable pub stoi : Bytes → Parsed
unfolding parse_sign
stoi [] = invalid_argument
stoi (c ∷ s) = let rest = stoi s in if is_space c then rest else parse_sign (c ∷ s)

abbrev pub or_default : Bytes → Bytes → Bytes
or_default default stored = if is_nil stored then default else stored

-- GetValidTXhold, GetValidFanHold and GetValidFanLowPWM: the text that is returned, and written
-- back under the key. Both exceptions of `stoi` are caught.
unfoldable pub valid_text : Bytes → Bytes → Bytes
unfolding stoi
valid_text default stored = elim (stoi (or_default default stored)) [
  | value v ↦ or_default default stored
  | invalid_argument ↦ default
  | out_of_range ↦ default
]

abbrev pub get_valid_tx_hold : Bytes → Bytes
get_valid_tx_hold = valid_text (codes "450")

abbrev pub get_valid_fan_hold : Bytes → Bytes
get_valid_fan_hold = valid_text (codes "3")

abbrev pub get_valid_fan_low_pwm : Bytes → Bytes
get_valid_fan_low_pwm = valid_text (codes "175")

-- GetValidTXupHz: the number that is returned, and the text that is written back.
unfoldable pub get_valid_tx_up_hz : Bytes → ℤ × Bytes
unfolding stoi
get_valid_tx_up_hz stored = elim (stoi (or_default (codes "500") stored)) [
  | value v ↦ (v, or_default (codes "500") stored)
  | invalid_argument ↦ (pos 500, codes "500")
  | out_of_range ↦ (pos 500, codes "500")
]

-- GetValidFT8txDelay and GetValidTempLimit: `none` where an exception leaves the function, whose
-- handler is for a thrown `int` only; then nothing is written back.
unfoldable pub valid_below : Bytes → ℕ → Bytes → Option Bytes
unfolding stoi
valid_below default limit stored = elim (stoi (or_default default stored)) [
  | value v ↦
      some (
        if ltb_ℤ v (pos 0) || not (ltb_ℤ v (pos limit)) then default else or_default default stored)
  | invalid_argument ↦ none
  | out_of_range ↦ none
]

abbrev pub get_valid_ft8_tx_delay : Bytes → Option Bytes
get_valid_ft8_tx_delay = valid_below (codes "250") 3000

abbrev pub get_valid_temp_limit : Bytes → Option Bytes
get_valid_temp_limit = valid_below (codes "54") 75

pub data SplitMode : Type 0 where
  split_none split_tx_rx split_ft8 : SplitMode

abbrev pub mode_number : SplitMode → ℕ
mode_number split_none = 0
mode_number split_tx_rx = 1
mode_number split_ft8 = 2

-- The text that SaveSplitMode stores.
unfoldable pub save_split_mode : SplitMode → Bytes
save_split_mode mode = to_string (mode_number mode)

-- The new mode, from the stored text and the mode that the form has.
unfoldable pub load_split_mode : Bytes → SplitMode → SplitMode
load_split_mode stored mode =
    let tmp = or_default (codes "0") stored in
    if str_eq tmp (codes "0")
    then split_none
    else if str_eq tmp (codes "1")
    then split_tx_rx
    else if str_eq tmp (codes "2")
    then split_ft8
    else mode
