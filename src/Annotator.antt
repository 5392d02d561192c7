-- ===== src/Annotator.antt =====
-- SDRunoPlugin_TXLink/SDRunoPlugin_TXLink.cpp: the linked list of annotations, its three updates
-- and AnnotatorProcess. `entries` is the list from `head` on, and `tail` the place that the pointer
-- `tail` has in it: what is appended is hung under that entry, wherever it stands.
pub mod Order
pub mod Examples
use sdr_plugin_txlink_wsjt_x.Base.{
  ℕ, zero, suc, ◌+◌, List, [], ◌∷◌, ◌++◌, map, Bool, true, false, ◌||◌, Bytes, ℤ, pos, negsuc,
  codes, str_eq, length, take, if◌then◌else◌,
}

pub record AnnoEntry : Type 0 where
  pub callsign : Bytes
  pub freq : ℤ
  pub time_utc : Bytes

pub record Annotations : Type 0 where
  pub entries : List AnnoEntry
  pub tail : ℕ

abbrev pub no_annotations : Annotations
no_annotations = record { entries = []; tail = 0 }

abbrev pub new_entry : Bytes → Bytes → ℤ → AnnoEntry
new_entry tag tim freq = record { callsign = tag; freq = freq; time_utc = tim }

abbrev pub append_at_tail : List AnnoEntry → ℕ → AnnoEntry → Annotations
append_at_tail [] tail tmp = record { entries = tmp ∷ []; tail = 0 }
append_at_tail (e ∷ es) tail tmp = record {
  entries = take (suc tail) (e ∷ es) ++ tmp ∷ [];
  tail = suc tail;
}

unfoldable pub add_anno_entry : Bytes → Bytes → ℤ → Annotations → Annotations
add_anno_entry tag tim freq a = append_at_tail a.entries a.tail (new_entry tag tim freq)

abbrev pub replace_first : List AnnoEntry → ℕ → AnnoEntry → Annotations
replace_first [] tail tmp = record { entries = tmp ∷ []; tail = 0 }
replace_first (e ∷ es) tail tmp = record { entries = tmp ∷ es; tail = tail }

unfoldable pub update_tx_anno_entry : Bytes → Bytes → ℤ → Annotations → Annotations
update_tx_anno_entry tag tim freq a = replace_first a.entries a.tail (new_entry tag tim freq)

abbrev pub replace_second : List AnnoEntry → ℕ → AnnoEntry → Annotations
replace_second [] tail tmp = record { entries = tmp ∷ tmp ∷ []; tail = 1 }
replace_second (e ∷ []) tail tmp = record { entries = e ∷ tmp ∷ []; tail = 1 }
replace_second (e ∷ f ∷ es) tail tmp = record { entries = e ∷ tmp ∷ es; tail = tail }

unfoldable pub update_rx_anno_entry : Bytes → Bytes → ℤ → Annotations → Annotations
update_rx_anno_entry tag tim freq a = replace_second a.entries a.tail (new_entry tag tim freq)

pub record AnnotatorItem : Type 0 where
  pub frequency : ℤ
  pub text : Bytes
  pub power : ℤ
  pub rgb : ℕ

-- The marker of an entry: -85, and -90 for the receiver's.
abbrev pub item_of : AnnoEntry → AnnotatorItem
item_of e = record {
  frequency = e.freq;
  text = e.callsign;
  power =
      if str_eq e.callsign (codes "RX") || str_eq e.callsign (codes "FTX")
      then negsuc 89
      else negsuc 84;
  rgb = 0x00aaff00;
}

unfoldable pub push_items : List AnnoEntry → List AnnotatorItem → List AnnotatorItem
push_items [] items = items
push_items (e ∷ es) items = push_items es (items ++ item_of e ∷ [])

unfoldable pub annotator_process : Annotations → List AnnotatorItem → List AnnotatorItem
unfolding push_items
annotator_process a items = push_items a.entries items

-- The calls of the other parts of the plugin.
pub data Update : Type 0 where
  add tx rx : Bytes → Bytes → ℤ → Update

unfoldable pub apply : Update → Annotations → Annotations
unfolding add_anno_entry update_tx_anno_entry update_rx_anno_entry
apply (add tag tim freq) a = add_anno_entry tag tim freq a
apply (tx tag tim freq) a = update_tx_anno_entry tag tim freq a
apply (rx tag tim freq) a = update_rx_anno_entry tag tim freq a

unfoldable pub apply_all : List Update → Annotations → Annotations
unfolding apply
apply_all [] a = a
apply_all (u ∷ us) a = apply_all us (apply u a)
