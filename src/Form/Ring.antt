-- ===== src/Form/Ring.antt =====
-- The ring of the last ten calls stays in its bounds.
use sdr_plugin_txlink_wsjt_x.Base.{
  ℕ, zero, suc, ◌+◌, ◌<◌, ◌≡◌, refl, ◌∙◌, ◌⊎◌, inl, inr, List, [], ◌∷◌, true, false, Bytes, ℤ, pos,
  negsuc, arith, Bool-cases, length, set, str_eq_refl, ltb, ◌+ℤ◌, length-set,
}
use sdr_plugin_txlink_wsjt_x.Form.Calls.{
  LastCalls, n_calls, is_listed, next_call, insert_call, last_ten_calls,
}

-- Ten places, and the last of them that was written, or -1.
abbrev pub IsRing : LastCalls → Type 0
IsRing c =
    (length c.str_last_ten_calls ≡ n_calls)
    × ((c.n_last_call ≡ negsuc 0) ⊎ ((k : ℕ) × (k < n_calls) × (c.n_last_call ≡ pos k)))

next_call-bound : (k : ℕ) → k < n_calls → (j : ℕ) × (j < n_calls) × (next_call (pos k) ≡ pos j)
unfolding next_call ◌+ℤ◌
next_call-bound k h = elim (Bool-cases (ltb (k + 1) 10)) [
  | inl e ↦ (k + 1, ground (arith, e), ground (arith, e))
  | inr e ↦ (0, omega arith, ground (arith, e))
]

next_call-IsRing :
    (n : ℤ)
    → (n ≡ negsuc 0) ⊎ ((k : ℕ) × (k < n_calls) × (n ≡ pos k))
    → (j : ℕ) × (j < n_calls) × (next_call n ≡ pos j)
next_call-IsRing n (inl e) = rw e (0, omega arith, unfold next_call ◌+ℤ◌ in refl)
next_call-IsRing n (inr (k, h, e)) = rw e (next_call-bound k h)

is_listed-set :
    (call : Bytes) (cs : List Bytes) (i : ℕ) → i < length cs → is_listed call (set cs i call) ≡ true
unfolding is_listed
is_listed-set call [] i h = elim h [ ]
is_listed-set call (c ∷ cs) zero h = ground (arith, str_eq_refl call)
is_listed-set call (c ∷ cs) (suc i) h = ground (arith, is_listed-set call cs i (omega arith))

insert_call-IsRing :
    (call : Bytes) (c : LastCalls)
    → IsRing c
    → IsRing (insert_call call c) × (is_listed call (insert_call call c).str_last_ten_calls ≡ true)
unfolding insert_call
insert_call-IsRing call c (ten, last) =
    let (j, h, e) = next_call-IsRing c.n_last_call last in
    rw e (
      (length-set c.str_last_ten_calls j call ∙ ten, inr (j, h, refl)),
      is_listed-set call c.str_last_ten_calls j (omega (arith, ten)),
    )

-- A look-up in a ring of ten places keeps the ring in its bounds, leaves the call in it unless it
-- is empty, and reports that it was not found, whether it was or not.
pub last_ten_calls-IsRing :
    (call : Bytes) (c : LastCalls)
    → IsRing c
    → let (c', found) = last_ten_calls call c in
      IsRing c' × ((call ≡ []) ⊎ (is_listed call c'.str_last_ten_calls ≡ true)) × (found ≡ false)
unfolding last_ten_calls
last_ten_calls-IsRing [] c r = (r, inl refl, refl)
last_ten_calls-IsRing (d ∷ call) c r =
    elim (Bool-cases (is_listed (d ∷ call) c.str_last_ten_calls)) [
      | inl e ↦ rw e (r, inr e, refl)
      | inr e ↦ let (r', l) = insert_call-IsRing (d ∷ call) c r in rw e (r', inr l, refl)
    ]
