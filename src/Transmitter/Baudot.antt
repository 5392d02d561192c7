-- ===== src/Transmitter/Baudot.antt =====
-- TXlink4_Nano/RTTY.ino: the Baudot codes of characters, and the shifts between letters and figures.
pub mod Receiver
use sdr_plugin_txlink_wsjt_x.Base.{
  ℕ, List, [], ◌∷◌, ◌++◌, Bool, true, false, not, ◌&&◌, ◌||◌, Option, none, some, Bytes, ◌==◌,
  if◌then◌else◌,
}
use sdr_plugin_txlink_wsjt_x.Transmitter.Numbers.{toupper}

pub record BaudotEntry : Type 0 where
  pub code : ℕ
  pub requires_figures_shift : Bool

abbrev pub letters_shift_code : ℕ
letters_shift_code = 31

abbrev pub figures_shift_code : ℕ
figures_shift_code = 27

abbrev pub cr_code : ℕ
cr_code = 8

abbrev pub lf_code : ℕ
lf_code = 2

abbrev pub space_code : ℕ
space_code = 4

-- The cases of the switch, with the codes that they return.
abbrev pub letter_cases : List (ℕ × ℕ)
letter_cases =
    (b'E', 1)
    ∷ (b'A', 3)
    ∷ (b'S', 5)
    ∷ (b'I', 6)
    ∷ (b'U', 7)
    ∷ (b'D', 9)
    ∷ (b'R', 10)
    ∷ (b'J', 11)
    ∷ (b'N', 12)
    ∷ (b'F', 13)
    ∷ (b'C', 14)
    ∷ (b'K', 15)
    ∷ (b'T', 16)
    ∷ (b'Z', 17)
    ∷ (b'L', 18)
    ∷ (b'W', 19)
    ∷ (b'H', 20)
    ∷ (b'Y', 21)
    ∷ (b'P', 22)
    ∷ (b'Q', 23)
    ∷ (b'O', 24)
    ∷ (b'B', 25)
    ∷ (b'G', 26)
    ∷ (b'M', 28)
    ∷ (b'X', 29)
    ∷ (b'V', 30)
    ∷ []

abbrev pub figure_cases : List (ℕ × ℕ)
figure_cases =
    (b'3', 1)
    ∷ (b'-', 3)
    ∷ (b'8', 6)
    ∷ (b'7', 7)
    ∷ (b'$', 9)
    ∷ (b'4', 10)
    ∷ (39, 11)
    ∷ (b',', 12)
    ∷ (b'!', 13)
    ∷ (b':', 14)
    ∷ (b'(', 15)
    ∷ (b'5', 16)
    ∷ (34, 17)
    ∷ (b')', 18)
    ∷ (b'2', 19)
    ∷ (b'6', 21)
    ∷ (b'0', 22)
    ∷ (b'1', 23)
    ∷ (b'9', 24)
    ∷ (b'?', 25)
    ∷ (b'&', 26)
    ∷ (b'.', 28)
    ∷ (b'/', 29)
    ∷ (b';', 30)
    ∷ []

unfoldable pub code_in : List (ℕ × ℕ) → ℕ → Option ℕ
code_in [] c = none
code_in (p ∷ l) c = let rest = code_in l c in if c == p.0 then some p.1 else rest

-- The switch; a NUL has the code 0, and any other character that of a space.
unfoldable pub from_cases : Option ℕ → Option ℕ → ℕ → BaudotEntry
from_cases (some k) figure c = record { code = k; requires_figures_shift = false }
from_cases none (some k) c = record { code = k; requires_figures_shift = true }
from_cases none none c = record {
  code = if c == 0 then 0 else space_code;
  requires_figures_shift = false;
}

unfoldable pub of_upper : ℕ → BaudotEntry
unfolding code_in from_cases
of_upper c =
    if c == 13 || c == 8
    then record { code = cr_code; requires_figures_shift = false }
    else if c == 10 || c == 2
    then record { code = lf_code; requires_figures_shift = false }
    else if c == 32
    then record { code = space_code; requires_figures_shift = false }
    else from_cases (code_in letter_cases c) (code_in figure_cases c) c

-- `getBaudotCode`.
unfoldable pub get_baudot_code : ℕ → BaudotEntry
unfolding of_upper toupper
get_baudot_code c = of_upper (toupper c)

-- The codes for one character after `current_shift_LTRS`, and the shift after them.
unfoldable pub shift_for : BaudotEntry → Bool → List ℕ
shift_for e letters =
    if e.requires_figures_shift && letters
    then figures_shift_code ∷ []
    else if not e.requires_figures_shift && not letters
    then letters_shift_code ∷ []
    else []

unfoldable pub codes_of_char : ℕ → Bool → List ℕ
unfolding get_baudot_code shift_for
codes_of_char c letters =
    let e : BaudotEntry = get_baudot_code c in shift_for e letters ++ e.code ∷ []

-- `current_shift_LTRS` behind one character.
unfoldable pub shift_after : BaudotEntry → Bool → Bool
shift_after e letters =
    if e.requires_figures_shift && letters
    then false
    else if not e.requires_figures_shift && not letters
    then true
    else letters

-- The codes of a text.
unfoldable pub codes_of_text : Bytes → Bool → List ℕ
unfolding codes_of_char get_baudot_code shift_after
codes_of_text [] letters = []
codes_of_text (c ∷ s) letters =
    codes_of_char c letters ++ codes_of_text s (shift_after (get_baudot_code c) letters)
