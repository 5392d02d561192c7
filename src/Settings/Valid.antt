-- ===== src/Settings/Valid.antt =====
-- What the checked settings guarantee, and where the check lets an exception through.
use sdr_plugin_txlink_wsjt_x.Base.{
  ℕ, ◌<◌, ◌≡◌, ◌≢◌, ◌↔◌, refl, ap, ◌∙◌, ◌⊎◌, inl, inr, [], ◌∷◌, none, some, false, Bytes, ℤ, pos,
  negsuc, ltb_ℤ, codes, str_eq, str_eq_iff, str_eq_ne, to_string, arith, Bool-cases,
}
use sdr_plugin_txlink_wsjt_x.Settings.{
  Parsed, value, invalid_argument, out_of_range, stoi, or_default, valid_text, valid_below,
  SplitMode, split_none, split_tx_rx, split_ft8, save_split_mode, load_split_mode,
}

Parsed-cases :
    (r : Parsed) → ((v : ℤ) × (r ≡ value v)) ⊎ ((r ≡ invalid_argument) ⊎ (r ≡ out_of_range))
Parsed-cases (value v) = inl (v, refl)
Parsed-cases invalid_argument = inr (inl refl)
Parsed-cases out_of_range = inr (inr refl)

valid_text_value :
    (default stored : Bytes) (v : ℤ)
    → stoi (or_default default stored) ≡ value v
    → valid_text default stored ≡ or_default default stored
unfolding valid_text
valid_text_value default stored v e = rw (e, valid_text)

valid_text_default :
    (default stored : Bytes)
    → (stoi (or_default default stored) ≡ invalid_argument)
      ⊎ (stoi (or_default default stored) ≡ out_of_range)
    → valid_text default stored ≡ default
unfolding valid_text
valid_text_default default stored (inl e) = rw (e, valid_text)
valid_text_default default stored (inr e) = rw (e, valid_text)

-- A text that is a number is not empty, so it is its own value under any default.
or_default-value : (default t : Bytes) (v : ℤ) → stoi t ≡ value v → or_default default t ≡ t
unfolding stoi
or_default-value default [] v e = cc
or_default-value default (c ∷ t) v e = refl

-- With a default that is a number, a checked setting is a number whatever was stored, and checking
-- what was written back changes nothing.
pub valid_text-stoi :
    (default stored : Bytes) (d : ℤ)
    → stoi default ≡ value d
    → ((v : ℤ) × (stoi (valid_text default stored) ≡ value v))
      × (valid_text default (valid_text default stored) ≡ valid_text default stored)
valid_text-stoi default stored d h = elim (Parsed-cases (stoi (or_default default stored))) [
  | inl (v, e) ↦
      let same = valid_text_value default stored v e in
      let is_value : stoi (valid_text default stored) ≡ value v = ap stoi same ∙ e in
      ((v, is_value), again v is_value)
  | inr e ↦
      let same = valid_text_default default stored e in
      let is_value : stoi (valid_text default stored) ≡ value d = ap stoi same ∙ h in
      ((d, is_value), again d is_value)
]
  where
    again :
        (v : ℤ)
        → stoi (valid_text default stored) ≡ value v
        → valid_text default (valid_text default stored) ≡ valid_text default stored
    again v e =
        let whole = or_default-value default (valid_text default stored) v e in
        valid_text_value default (valid_text default stored) v (ap stoi whole ∙ e) ∙ whole

abbrev InRange : ℕ → Bytes → Type 0
InRange limit t = (n : ℕ) × (stoi t ≡ value (pos n)) × (n < limit)

-- With a default that is a number below the bound, a bounded setting that is returned is a number
-- from 0 up to below the bound.
pub valid_below-range :
    (default stored t : Bytes) (limit d : ℕ)
    → stoi default ≡ value (pos d)
    → d < limit
    → valid_below default limit stored ≡ some t
    → (n : ℕ) × (stoi t ≡ value (pos n)) × (n < limit)
unfolding valid_below
valid_below-range default stored t limit d h l e =
    elim (Parsed-cases (stoi (or_default default stored))) [
      | inl (v, p) ↦ in_range v p
      | inr (inl p) ↦ absurd (ground (arith, p))
      | inr (inr p) ↦ absurd (ground (arith, p))
    ]
  where
    in_range : (v : ℤ) → stoi (or_default default stored) ≡ value v → InRange limit t
    in_range (pos n) p = elim (Bool-cases (ltb_ℤ (pos n) (pos limit))) [
      | inl b ↦ (n, ground (arith, p, b), ground (arith, b))
      | inr b ↦ (d, ground (arith, p, b), l)
    ]
    in_range (negsuc n) p = (d, ground (arith, p), l)

-- With a default that is a number, an exception leaves the check of a bounded setting exactly if
-- the stored text is not empty and is no number or one out of the range of an int.
pub valid_below_throws :
    (default stored : Bytes) (limit : ℕ) (d : ℤ)
    → stoi default ≡ value d
    → (valid_below default limit stored ≡ none)
      ↔ ((stored ≢ []) × ((stoi stored ≡ invalid_argument) ⊎ (stoi stored ≡ out_of_range)))
valid_below_throws default [] limit d h =
    ((λ e. absurd (unfold valid_below in ground (arith, h))), (λ e. absurd (e.0 refl)))
valid_below_throws default (c ∷ s) limit d h = elim (Parsed-cases (stoi (c ∷ s))) [
  | inl (v, p) ↦
      ((λ e. absurd (unfold valid_below in ground (arith, p))), (λ e. absurd (ground (arith, p))))
  | inr why ↦ ((λ e. ((λ n. cc), why)), (λ e. unfold valid_below in ground (arith, why)))
]

load_split_mode_unknown :
    (old : SplitMode) (c : ℕ) (s : Bytes)
    → ((m : SplitMode) → c ∷ s ≢ save_split_mode m)
    → load_split_mode (c ∷ s) old ≡ old
unfolding load_split_mode save_split_mode to_string
load_split_mode_unknown old c s h = rw (str_eq_ne (c ∷ s) (codes "0") (h split_none)) (
    rw (str_eq_ne (c ∷ s) (codes "1") (h split_tx_rx))
      (rw (str_eq_ne (c ∷ s) (codes "2") (h split_ft8))))

load_split_mode_saved : (mode old : SplitMode) → load_split_mode (save_split_mode mode) old ≡ mode
unfolding load_split_mode save_split_mode to_string str_eq
load_split_mode_saved split_none old = refl
load_split_mode_saved split_tx_rx old = refl
load_split_mode_saved split_ft8 old = refl

SavedText-cases :
    (t : Bytes)
    → ((m : SplitMode) × (t ≡ save_split_mode m)) ⊎ ((m : SplitMode) → t ≢ save_split_mode m)
SavedText-cases t = elim (Bool-cases (str_eq t (save_split_mode split_none))) [
  | inl e ↦ inl (split_none, (str_eq_iff t _).0 e)
  | inr e ↦ elim (Bool-cases (str_eq t (save_split_mode split_tx_rx))) [
    | inl f ↦ inl (split_tx_rx, (str_eq_iff t _).0 f)
    | inr f ↦ elim (Bool-cases (str_eq t (save_split_mode split_ft8))) [
      | inl g ↦ inl (split_ft8, (str_eq_iff t _).0 g)
      | inr g ↦ inr (none_of e f g)
    ]
  ]
]
  where
    other : (m : SplitMode) → str_eq t (save_split_mode m) ≡ false → t ≢ save_split_mode m
    other m e h = let same = (str_eq_iff t (save_split_mode m)).1 h in ground (arith, e, same)

    none_of :
        str_eq t (save_split_mode split_none) ≡ false
        → str_eq t (save_split_mode split_tx_rx) ≡ false
        → str_eq t (save_split_mode split_ft8) ≡ false
        → (m : SplitMode) → t ≢ save_split_mode m
    none_of e f g split_none = other split_none e
    none_of e f g split_tx_rx = other split_tx_rx f
    none_of e f g split_ft8 = other split_ft8 g

-- For every stored text: it is the saved text of a mode, which is loaded; or it is empty, which
-- loads the mode without a split; or it is neither, and the mode stays.
pub load_split_mode-save :
    (stored : Bytes) (old : SplitMode)
    → ((m : SplitMode) × (stored ≡ save_split_mode m) × (load_split_mode stored old ≡ m))
      ⊎ (((stored ≡ []) × (load_split_mode stored old ≡ split_none))
          ⊎ (((m : SplitMode) → stored ≢ save_split_mode m)
              × (stored ≢ [])
              × (load_split_mode stored old ≡ old)))
load_split_mode-save [] old = inr (inl (refl, unfold load_split_mode str_eq in refl))
load_split_mode-save (c ∷ s) old = elim (SavedText-cases (c ∷ s)) [
  | inl (m, e) ↦ inl (m, e, rw e (load_split_mode_saved m old))
  | inr h ↦ inr (inr (h, (λ e. cc), load_split_mode_unknown old c s h))
]
