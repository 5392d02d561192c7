-- ===== src/Base/Memory.antt =====
-- Integers in the memory of a little-endian host, and the byte swaps of the network order.
use Prim.Native.Nat.{ℕ, zero, suc, ◌+◌, ◌*◌, ◌/◌, ◌%◌, ◌^◌, ◌<◌}
use mathlib.Core.Path.{◌≡◌, refl, sym, ap, ◌∙◌}
use mathlib.Core.List.{[], ◌∷◌, ◌++◌, reverse, reverse-cons}
use native.Mathlib.Nat.{pow-suc}
use native.Mathlib.Omega.{arith}
use sdr_plugin_txlink_wsjt_x.Base.Lists.{length, length-reverse}
use sdr_plugin_txlink_wsjt_x.Base.Text.{Bytes}

abbrev pub AllBytes : Bytes → Type 0
AllBytes [] = Unit {0}
AllBytes (b ∷ bs) = (b < 256) × AllBytes bs

-- `w` bytes of `v`, the lowest first: what a `memcpy` out of an integer gives.
unfoldable pub le_bytes : ℕ → ℕ → Bytes
le_bytes zero v = []
le_bytes (suc w) v = (v % 256) ∷ le_bytes w (v / 256)

-- The integer that a `memcpy` of these bytes gives.
unfoldable pub of_le : Bytes → ℕ
of_le [] = 0
of_le (b ∷ bs) = b + 256 * of_le bs

-- `v` in network order.
unfoldable pub be_bytes : ℕ → ℕ → Bytes
unfolding le_bytes
be_bytes w v = reverse (le_bytes w v)

-- `htonl` at `w` = 4, `_byteswap_uint64` at `w` = 8.
unfoldable pub byte_swap : ℕ → ℕ → ℕ
unfolding le_bytes of_le
byte_swap w v = of_le (reverse (le_bytes w v))

pub length-le_bytes : (w v : ℕ) → length (le_bytes w v) ≡ w
unfolding le_bytes
length-le_bytes zero v = refl
length-le_bytes (suc w) v = ap suc (length-le_bytes w (v / 256))

pub length-be_bytes : (w v : ℕ) → length (be_bytes w v) ≡ w
unfolding be_bytes
length-be_bytes w v = length-reverse (le_bytes w v) ∙ length-le_bytes w v

of_le-append : (xs ys : Bytes) → of_le (xs ++ ys) ≡ of_le xs + 256 ^ length xs * of_le ys
unfolding of_le
of_le-append [] ys = omega arith
of_le-append (x ∷ xs) ys = rw (of_le-append xs ys) (rw (pow-suc 256 (length xs)) (grind arith))

pub of_le-le_bytes : (w v : ℕ) → v < 256 ^ w → of_le (le_bytes w v) ≡ v
unfolding of_le le_bytes
of_le-le_bytes zero v h = omega arith
of_le-le_bytes (suc w) v h =
    rw (of_le-le_bytes w (v / 256) (omega (arith, rw (pow-suc 256 w) at h))) (omega arith)

pub le_bytes-of_le : (bs : Bytes) → AllBytes bs → le_bytes (length bs) (of_le bs) ≡ bs
unfolding of_le le_bytes
le_bytes-of_le [] h = refl
le_bytes-of_le (b ∷ bs) h =
    let low : (b + 256 * of_le bs) % 256 ≡ b = omega arith in
    let high : (b + 256 * of_le bs) / 256 ≡ of_le bs = omega arith in
    rw (low, high, le_bytes-of_le bs h.1)

pub AllBytes-le_bytes : (w v : ℕ) → AllBytes (le_bytes w v)
unfolding le_bytes
AllBytes-le_bytes zero v = tt
AllBytes-le_bytes (suc w) v = (omega arith, AllBytes-le_bytes w (v / 256))

AllBytes-append : (xs ys : Bytes) → AllBytes xs → AllBytes ys → AllBytes (xs ++ ys)
AllBytes-append [] ys p q = q
AllBytes-append (x ∷ xs) ys p q = (p.0, AllBytes-append xs ys p.1 q)

AllBytes-reverse : (xs : Bytes) → AllBytes xs → AllBytes (reverse xs)
AllBytes-reverse [] p = tt
AllBytes-reverse (x ∷ xs) p =
    rw (reverse-cons x xs)
      (AllBytes-append (reverse xs) (x ∷ []) (AllBytes-reverse xs p.1) (p.0, tt))

-- The memory of a swapped integer is the integer in network order.
pub le_bytes-byte_swap : (w v : ℕ) → le_bytes w (byte_swap w v) ≡ be_bytes w v
unfolding byte_swap be_bytes
le_bytes-byte_swap w v =
    let turned = reverse (le_bytes w v) in
    let same : length turned ≡ w = length-reverse (le_bytes w v) ∙ length-le_bytes w v in
    ap (λ n. le_bytes n (of_le turned)) (sym same)
    ∙ le_bytes-of_le turned (AllBytes-reverse _ (AllBytes-le_bytes w v))
