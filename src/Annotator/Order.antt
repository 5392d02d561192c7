-- ===== src/Annotator/Order.antt =====
-- The tail is the last entry, so nothing is lost, and the TX marker stands before the RX marker.
use sdr_plugin_txlink_wsjt_x.Base.{
  ℕ, suc, ◌≡◌, refl, sym, ap, ◌∙◌, ◌⊎◌, inr, List, [], ◌∷◌, ◌++◌, map, append-nil, append_assoc,
  arith, Bytes, ℤ, length, take, drop, take-all, length-append,
}
use sdr_plugin_txlink_wsjt_x.Annotator.{
  AnnoEntry, Annotations, new_entry, append_at_tail, replace_first, replace_second, AnnotatorItem,
  item_of, push_items, annotator_process, Update, add, tx, rx, apply, apply_all,
  update_tx_anno_entry, update_rx_anno_entry,
}

-- The pointer `tail` is at the last entry.
abbrev pub IsValid : Annotations → Type 0
IsValid a = (a.entries ≡ []) ⊎ (suc a.tail ≡ length a.entries)

-- What the calls mean for the list alone.
abbrev pub applied : Update → List AnnoEntry → List AnnoEntry
applied (add tag tim freq) es = es ++ new_entry tag tim freq ∷ []
applied (tx tag tim freq) [] = new_entry tag tim freq ∷ []
applied (tx tag tim freq) (e ∷ es) = new_entry tag tim freq ∷ es
applied (rx tag tim freq) [] = new_entry tag tim freq ∷ new_entry tag tim freq ∷ []
applied (rx tag tim freq) (e ∷ []) = e ∷ new_entry tag tim freq ∷ []
applied (rx tag tim freq) (e ∷ f ∷ es) = e ∷ new_entry tag tim freq ∷ es

abbrev pub applied_all : List Update → List AnnoEntry → List AnnoEntry
applied_all [] es = es
applied_all (u ∷ us) es = applied_all us (applied u es)

append_at_tail_lem :
    (es : List AnnoEntry) (t : ℕ) (tmp : AnnoEntry)
    → (es ≡ []) ⊎ (suc t ≡ length es)
    → (IsValid (append_at_tail es t tmp)) × ((append_at_tail es t tmp).entries ≡ es ++ tmp ∷ [])
append_at_tail_lem [] t tmp v = (inr refl, refl)
append_at_tail_lem (e ∷ es) t tmp v =
    let last : suc t ≡ length (e ∷ es) = ground arith in
    let whole : take (suc t) (e ∷ es) ≡ e ∷ es = take-all (suc t) (e ∷ es) (omega arith) in
    (
      inr (ground (arith, ap length whole, length-append (take (suc t) (e ∷ es)) (tmp ∷ []))),
      ap (λ l. l ++ tmp ∷ []) whole,
    )

replace_first_lem :
    (es : List AnnoEntry) (t : ℕ) (tmp : AnnoEntry)
    → (es ≡ []) ⊎ (suc t ≡ length es)
    → IsValid (replace_first es t tmp)
replace_first_lem [] t tmp v = inr refl
replace_first_lem (e ∷ es) t tmp v = ground arith

replace_second_lem :
    (es : List AnnoEntry) (t : ℕ) (tmp : AnnoEntry)
    → (es ≡ []) ⊎ (suc t ≡ length es)
    → IsValid (replace_second es t tmp)
replace_second_lem [] t tmp v = inr refl
replace_second_lem (e ∷ []) t tmp v = inr refl
replace_second_lem (e ∷ f ∷ es) t tmp v = ground arith

replace_first-entries :
    (es : List AnnoEntry) (t : ℕ) (tag tim : Bytes) (f : ℤ)
    → (replace_first es t (new_entry tag tim f)).entries ≡ applied (tx tag tim f) es
replace_first-entries [] t tag tim f = refl
replace_first-entries (e ∷ es) t tag tim f = refl

replace_second-entries :
    (es : List AnnoEntry) (t : ℕ) (tag tim : Bytes) (f : ℤ)
    → (replace_second es t (new_entry tag tim f)).entries ≡ applied (rx tag tim f) es
replace_second-entries [] t tag tim f = refl
replace_second-entries (e ∷ []) t tag tim f = refl
replace_second-entries (e ∷ g ∷ es) t tag tim f = refl

apply-applied :
    (u : Update) (a : Annotations)
    → IsValid a
    → (IsValid (apply u a)) × ((apply u a).entries ≡ applied u a.entries)
unfolding apply
apply-applied (add tag tim f) a v = append_at_tail_lem a.entries a.tail (new_entry tag tim f) v
apply-applied (tx tag tim f) a v = (
  replace_first_lem a.entries a.tail (new_entry tag tim f) v,
  replace_first-entries a.entries a.tail tag tim f,
)
apply-applied (rx tag tim f) a v = (
  replace_second_lem a.entries a.tail (new_entry tag tim f) v,
  replace_second-entries a.entries a.tail tag tim f,
)

-- From a list whose tail is its last entry, any calls keep the tail at the last entry, and the
-- entries are those of the calls on the plain list, so that an addition loses none.
pub apply_all-applied_all :
    (us : List Update) (a : Annotations)
    → IsValid a
    → (IsValid (apply_all us a)) × ((apply_all us a).entries ≡ applied_all us a.entries)
unfolding apply_all
apply_all-applied_all [] a v = (v, refl)
apply_all-applied_all (u ∷ us) a v =
    let (v', e) = apply-applied u a v in
    let (w, f) = apply_all-applied_all us (apply u a) v' in (w, f ∙ ap (applied_all us) e)

push_items-map :
    (es : List AnnoEntry) (items : List AnnotatorItem)
    → push_items es items ≡ items ++ map item_of es
unfolding push_items
push_items-map [] items = sym (append-nil items)
push_items-map (e ∷ es) items = push_items-map es (items ++ item_of e ∷ []) ∙ append_assoc items _ _

tx_rx-entries :
    (es : List AnnoEntry) (t : ℕ) (b c : AnnoEntry)
    → (replace_second (replace_first es t b).entries (replace_first es t b).tail c).entries
      ≡ b ∷ c ∷ drop 2 es
tx_rx-entries [] t b c = refl
tx_rx-entries (e ∷ []) t b c = refl
tx_rx-entries (e ∷ f ∷ es) t b c = refl

-- After the calls for the two frequencies, in this order, SDRuno is given the TX marker, then the
-- RX marker, then those of the entries from the third on, behind what it had.
pub annotator_process-tx_rx :
    (tx_tag rx_tag tim : Bytes) (tx_freq rx_freq : ℤ) (a : Annotations) (items : List AnnotatorItem)
    → annotator_process
        (update_rx_anno_entry rx_tag tim rx_freq (update_tx_anno_entry tx_tag tim tx_freq a))
        items
      ≡ items
        ++ (item_of (new_entry tx_tag tim tx_freq)
            ∷ item_of (new_entry rx_tag tim rx_freq)
            ∷ map item_of (drop 2 a.entries))
unfolding annotator_process update_rx_anno_entry update_tx_anno_entry
annotator_process-tx_rx tx_tag rx_tag tim tx_freq rx_freq a items =
    ap (λ es. push_items es items)
      (tx_rx-entries a.entries a.tail (new_entry tx_tag tim tx_freq) (new_entry rx_tag tim rx_freq))
    ∙ push_items-map
        (new_entry tx_tag tim tx_freq ∷ new_entry rx_tag tim rx_freq ∷ drop 2 a.entries) items
