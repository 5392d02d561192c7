-- ===== src/Form/Calls.antt =====
-- SDRunoPlugin_TXLink/SDRunoPlugin_TXLinkForm.cpp: bLastTenCalls, a ring of the last ten calls.
use sdr_plugin_txlink_wsjt_x.Base.{
  ℕ, List, [], ◌∷◌, Bool, false, not, ◌||◌, Bytes, ℤ, pos, negsuc, pos_part, ◌+ℤ◌, ltb_ℤ, str_eq,
  set, replicate, if◌then◌else◌,
}
use sdr_plugin_txlink_wsjt_x.Encode.{is_nil}

abbrev pub n_calls : ℕ
n_calls = 10

pub record LastCalls : Type 0 where
  pub str_last_ten_calls : List Bytes
  pub n_last_call : ℤ

abbrev pub no_calls : LastCalls
no_calls = record { str_last_ten_calls = replicate n_calls []; n_last_call = negsuc 0 }

-- The search loop.
unfoldable pub is_listed : Bytes → List Bytes → Bool
is_listed call [] = false
is_listed call (c ∷ cs) = str_eq c call || is_listed call cs

-- `++nLastCall`, back to 0 at the end of the ring.
unfoldable pub next_call : ℤ → ℤ
unfolding ◌+ℤ◌
next_call n = let m = n +ℤ pos 1 in if not (ltb_ℤ m (pos n_calls)) then pos 0 else m

unfoldable pub insert_call : Bytes → LastCalls → LastCalls
unfolding next_call
insert_call call c =
    let n = next_call c.n_last_call in
    record { str_last_ten_calls = set c.str_last_ten_calls (pos_part n) call; n_last_call = n }

-- The new ring, and the result: whatever was found, it is `false`.
unfoldable pub last_ten_calls : Bytes → LastCalls → LastCalls × Bool
unfolding is_listed insert_call
last_ten_calls call c =
    let kept = if is_listed call c.str_last_ten_calls then c else insert_call call c in
    (if is_nil call then c else kept, false)
