-- ===== src/Transmitter/Baudot/Receiver.antt =====
-- TXlink4_Nano/RTTY.ino: a receiver of the alphabet ITA2 reads the text that is sent.
use sdr_plugin_txlink_wsjt_x.Base.{
  ℕ, zero, suc, ◌<◌, ◌≡◌, refl, ap, ◌∙◌, inl, inr, List, [], ◌∷◌, ◌++◌, append_assoc, map, Bool,
  true, false, not, ◌&&◌, ◌||◌, Option, none, some, Bytes, arith, ◌==◌, ltb, codes, if◌then◌else◌,
  Bool-cases,
}
use sdr_plugin_txlink_wsjt_x.Transmitter.Numbers.{toupper}
use sdr_plugin_txlink_wsjt_x.Transmitter.Baudot.{
  BaudotEntry, letter_cases, figure_cases, code_in, from_cases, of_upper, get_baudot_code,
  shift_for, shift_after, codes_of_char, codes_of_text,
}

-- The alphabet: what each of the 32 codes stands for in either shift.
abbrev ita2_letters : Bytes
ita2_letters =
    0
    ∷ b'E'
    ∷ 10
    ∷ b'A'
    ∷ 32
    ∷ (codes "SIU" ++ 13 ∷ (codes "DRJNFCKTZLWHYPQOBG" ++ 0 ∷ (codes "MXV" ++ 0 ∷ [])))

abbrev ita2_figures : Bytes
ita2_figures =
    0
    ∷ b'3'
    ∷ 10
    ∷ b'-'
    ∷ 32
    ∷ 7
    ∷ (codes "87" ++ 13 ∷ (codes "$4',!:(5\")2#6019?&" ++ 0 ∷ (codes "./;" ++ 0 ∷ [])))

at : Bytes → ℕ → ℕ
at [] i = 0
at (c ∷ s) zero = c
at (c ∷ s) (suc i) = at s i

-- A receiver; with `unshift` it goes back to letters after a space.
unfoldable pub listen : Bool → Bool → List ℕ → Bytes
unfolding at
listen unshift letters [] = []
listen unshift letters (k ∷ l) =
    let to_figures = listen unshift false l in
    let to_letters = listen unshift true l in
    let same = listen unshift letters l in
    if k == 27
    then to_figures
    else if k == 31
    then to_letters
    else if k == 4
    then 32 ∷ (if unshift then to_letters else same)
    else at (if letters then ita2_letters else ita2_figures) k ∷ same

-- What arrives of a character: upper case, and a space for one that has no code.
of_cases : Option ℕ → Option ℕ → ℕ → ℕ
of_cases none none u = 32
of_cases none (some k) u = u
of_cases (some k) _ u = u

printed_upper : ℕ → ℕ
unfolding of_cases
printed_upper u =
    if u == 13 || u == 8
    then 13
    else if u == 10 || u == 2
    then 10
    else if u == 32
    then 32
    else of_cases (code_in letter_cases u) (code_in figure_cases u) u

pub printed : ℕ → ℕ
unfolding printed_upper
printed c = printed_upper (toupper c)

-- The switch agrees with one half of the alphabet.
agrees : Bytes → List (ℕ × ℕ) → Bool
unfolding at
agrees alphabet [] = true
agrees alphabet (p ∷ l) =
    at alphabet p.1 == p.0
    && (not (p.1 == 27) && (not (p.1 == 31) && (not (p.1 == 4) && agrees alphabet l)))

code_in-agrees :
    (alphabet : Bytes) (l : List (ℕ × ℕ)) (c k : ℕ)
    → agrees alphabet l ≡ true
    → code_in l c ≡ some k
    → at alphabet k ≡ c × (k == 27) ≡ false × (k == 31) ≡ false × (k == 4) ≡ false
unfolding agrees code_in
code_in-agrees alphabet [] c k a e = absurd (cc)
code_in-agrees alphabet (p ∷ l) c k a e = ground (arith, code_in-agrees alphabet l c k)

-- One entry is heard as one character.
abbrev IsHeard : BaudotEntry → ℕ → Type 0
IsHeard e c =
    (unshift letters : Bool) (rest : List ℕ)
    → listen unshift letters (shift_for e letters ++ e.code ∷ rest)
      ≡ c ∷ listen unshift (shift_after e letters) rest

letter-IsHeard :
    (k c : ℕ)
    → at ita2_letters k ≡ c × (k == 27) ≡ false × (k == 31) ≡ false × (k == 4) ≡ false
    → IsHeard (record { code = k; requires_figures_shift = false }) c
unfolding listen shift_for shift_after
letter-IsHeard k c h unshift true rest = rw (h.1, h.2, h.3, h.0) refl
letter-IsHeard k c h unshift false rest = rw (h.1, h.2, h.3, h.0) refl

figure-IsHeard :
    (k c : ℕ)
    → at ita2_figures k ≡ c × (k == 27) ≡ false × (k == 31) ≡ false × (k == 4) ≡ false
    → IsHeard (record { code = k; requires_figures_shift = true }) c
unfolding listen shift_for shift_after
figure-IsHeard k c h unshift true rest = rw (h.1, h.2, h.3, h.0) refl
figure-IsHeard k c h unshift false rest = rw (h.1, h.2, h.3, h.0) refl

space-IsHeard : IsHeard (record { code = 4; requires_figures_shift = false }) 32
unfolding listen shift_for shift_after
space-IsHeard true true rest = refl
space-IsHeard true false rest = refl
space-IsHeard false true rest = refl
space-IsHeard false false rest = refl

from_cases-IsHeard :
    (u : ℕ) (l f : Option ℕ)
    → 0 < u
    → code_in letter_cases u ≡ l
    → code_in figure_cases u ≡ f
    → IsHeard (from_cases l f u) (of_cases l f u)
unfolding from_cases of_cases agrees at
from_cases-IsHeard u (some k) f z e g =
    letter-IsHeard k u (code_in-agrees ita2_letters letter_cases u k refl e)
from_cases-IsHeard u none (some k) z e g =
    figure-IsHeard k u (code_in-agrees ita2_figures figure_cases u k refl g)
from_cases-IsHeard u none none z e g =
    let some_char : (u == 0) ≡ false = ground arith in rw some_char space-IsHeard

of_upper-IsHeard : (u : ℕ) → 0 < u → IsHeard (of_upper u) (printed_upper u)
unfolding of_upper printed_upper at
of_upper-IsHeard u z = elim (Bool-cases (u == 13 || u == 8)) [
  | inl e ↦ rw e (letter-IsHeard 8 13 (refl, refl, refl, refl))
  | inr e ↦ elim (Bool-cases (u == 10 || u == 2)) [
    | inl f ↦ rw (e, f) (letter-IsHeard 2 10 (refl, refl, refl, refl))
    | inr f ↦ elim (Bool-cases (u == 32)) [
      | inl g ↦ rw (e, f, g) space-IsHeard
      | inr g ↦ rw (e, f, g) (from_cases-IsHeard u _ _ z refl refl)
    ]
  ]
]

toupper_pos : (c : ℕ) → 0 < c → 0 < toupper c
unfolding toupper
toupper_pos c h = ground arith

-- A text of C holds no NUL.
pub data HasNoNul : Bytes → Type 0 where
  ends : HasNoNul []
  goes_on : {c : ℕ} {s : Bytes} → 0 < c → HasNoNul s → HasNoNul (c ∷ s)

-- The shift behind a text.
unfoldable pub shift_behind : Bytes → Bool → Bool
shift_behind [] letters = letters
shift_behind (c ∷ s) letters = shift_behind s (shift_after (get_baudot_code c) letters)

-- @
pub listen-codes_of_text :
    (unshift letters : Bool) (s : Bytes) (rest : List ℕ)
    → HasNoNul s
    → listen unshift letters (codes_of_text s letters ++ rest)
      ≡ map printed s ++ listen unshift (shift_behind s letters) rest
unfolding codes_of_text codes_of_char get_baudot_code printed shift_behind
listen-codes_of_text unshift letters _ rest ends = refl
listen-codes_of_text unshift letters _ rest (goes_on {c} {s} h p) =
    let e : BaudotEntry = of_upper (toupper c) in
    let after : Bool = shift_after e letters in
    ap (listen unshift letters) (
      append_assoc (shift_for e letters ++ e.code ∷ []) (codes_of_text s after) rest
      ∙ append_assoc (shift_for e letters) (e.code ∷ []) (codes_of_text s after ++ rest))
    ∙ of_upper-IsHeard (toupper c) (toupper_pos c h) unshift letters (codes_of_text s after ++ rest)
    ∙ ap (◌∷◌ (printed c)) (listen-codes_of_text unshift after s rest p)

-- Codes of five bits stand in the cases.
five_bits : List (ℕ × ℕ) → Bool
five_bits [] = true
five_bits (p ∷ l) = ltb p.1 32 && five_bits l

code_in-bound : (l : List (ℕ × ℕ)) (c k : ℕ) → five_bits l ≡ true → code_in l c ≡ some k → k < 32
unfolding five_bits code_in
code_in-bound [] c k a e = absurd (cc)
code_in-bound (p ∷ l) c k a e = ground (arith, code_in-bound l c k)

from_cases-bound :
    (c : ℕ) (l f : Option ℕ)
    → code_in letter_cases c ≡ l
    → code_in figure_cases c ≡ f
    → (from_cases l f c).code < 32
unfolding from_cases five_bits
from_cases-bound c (some k) f e g = code_in-bound letter_cases c k refl e
from_cases-bound c none (some k) e g = code_in-bound figure_cases c k refl g
from_cases-bound c none none e g = ground arith

pub get_baudot_code-bound : (c : ℕ) → (get_baudot_code c).code < 32
unfolding get_baudot_code of_upper
get_baudot_code-bound c =
    let other = from_cases-bound (toupper c) _ _ refl refl in
    elim (Bool-cases (toupper c == 13 || toupper c == 8)) [
      | inl e ↦ rw e (omega arith)
      | inr e ↦ elim (Bool-cases (toupper c == 10 || toupper c == 2)) [
        | inl f ↦ rw (e, f) (omega arith)
        | inr f ↦ elim (Bool-cases (toupper c == 32)) [
          | inl g ↦ rw (e, f, g) (omega arith)
          | inr g ↦ rw (e, f, g) other
        ]
      ]
    ]
