-- ===== src/Encode/Trim.antt =====
-- `removeTrailingSpaces` takes off all the trailing spaces and nothing else.
use sdr_plugin_txlink_wsjt_x.Base.{
  ℕ, suc, ◌≡◌, ◌≢◌, refl, ap, inl, inr, [], ◌∷◌, ◌++◌, Option, none, some, Bytes, arith, length,
  take, replicate, Bool-cases, Option-cases, ◌==◌, if◌then◌else◌,
}
use native.Mathlib.Numerals.{add-one}
use sdr_plugin_txlink_wsjt_x.Encode.{find_last_not_space, remove_trailing_spaces}

-- The last byte, if there is one, is no space.
abbrev pub EndsInText : Bytes → Type 0
EndsInText [] = Unit {0}
EndsInText (c ∷ []) = c ≢ b' '
EndsInText (c ∷ d ∷ s) = EndsInText (d ∷ s)

abbrev Found : Bytes → Option ℕ → Type 0
Found s none = s ≡ replicate (length s) b' '
Found s (some i) = (k : ℕ) × (s ≡ take (suc i) s ++ replicate k b' ') × EndsInText (take (suc i) s)

-- One byte in front of a text whose last byte that is no space is known.
Found-cons :
    (c d : ℕ) (s : Bytes) (o : Option ℕ)
    → Found (d ∷ s) o
    → Found
        (c ∷ d ∷ s)
        (elim o [ some i ↦ some (suc i) | none ↦ if c == b' ' then none else some 0 ])
Found-cons c d s (some i) (k, e, t) = (k, ap (◌∷◌ c) e, t)
Found-cons c d s none e = elim (Bool-cases (c == b' ')) [
  | inl h ↦ rw h (ground arith)
  | inr h ↦ rw h (length (d ∷ s), ap (◌∷◌ c) e, λ h'. ground arith)
]

find-Found : (s : Bytes) → Found s (find_last_not_space s)
unfolding find_last_not_space
find-Found [] = refl
find-Found (c ∷ []) = elim (Bool-cases (c == b' ')) [
  | inl e ↦ rw e (ground arith)
  | inr e ↦ rw e (0, refl, λ h. ground arith)
]
find-Found (c ∷ d ∷ s) = Found-cons c d s (find_last_not_space (d ∷ s)) (find-Found (d ∷ s))

trimmed_none : (s : Bytes) → find_last_not_space s ≡ none → remove_trailing_spaces s ≡ []
unfolding remove_trailing_spaces
trimmed_none s e = rw (e, remove_trailing_spaces)

trimmed_some :
    (s : Bytes) (i : ℕ) → find_last_not_space s ≡ some i → remove_trailing_spaces s ≡ take (suc i) s
unfolding remove_trailing_spaces
trimmed_some s i e = rw (e, remove_trailing_spaces) (rw add-one)

-- A text is what removeTrailingSpaces leaves of it followed by spaces only, and what is left is
-- empty or ends in something else than a space.
pub remove_trailing_spaces-append :
    (s : Bytes)
    → (k : ℕ) × (s ≡ remove_trailing_spaces s ++ replicate k b' ')
      × EndsInText (remove_trailing_spaces s)
remove_trailing_spaces-append s = elim (Option-cases (find_last_not_space s)) [
  | inl e ↦ rw (trimmed_none s e) (length s, rw e at (find-Found s), tt)
  | inr (i, e) ↦ rw (trimmed_some s i e) (rw e at (find-Found s))
]
