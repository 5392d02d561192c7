-- ===== src/Packet/Reads.antt =====
-- How the readers of WSJTX_Packet take their bytes: each as a rule on the bytes still to be read.
use sdr_plugin_txlink_wsjt_x.Base.{
  ℕ, ◌+◌, ◌*◌, ◌^◌, ◌<◌, ◌≡◌, refl, sym, ap, ◌∙◌, [], ◌∷◌, ◌++◌, Option, some, Bool, true, false,
  Bytes, pos, to_signed, length, drop, append_assoc, arith, length-append, drop-append, drop-drop,
  length-be_bytes, of_le, be_bytes, of_le-le_bytes, if◌then◌else◌,
}
use mathlib.Core.List.{reverse-reverse}
use sdr_plugin_txlink_wsjt_x.Packet.{
  Packet, M, ◌>>=◌, take_exact, advance, fetch, fetch_reversed, get_byte, get_bool, get_int32,
  get_uint32, get_long_long, get_double, read_text, read_utf8,
}

abbrev pub remaining : Packet → Bytes
remaining p = drop p.index p.packet

pub remaining-advance :
    (front rest : Bytes) (p : Packet)
    → remaining p ≡ front ++ rest
    → remaining (advance (length front) p) ≡ rest
remaining-advance front rest p e =
    sym (drop-drop p.index (length front) p.packet)
    ∙ ap (drop (length front)) e
    ∙ drop-append front rest

take_exact-append : (xs ys : Bytes) → take_exact (length xs) (xs ++ ys) ≡ some xs
unfolding take_exact
take_exact-append [] ys = refl
take_exact-append (x ∷ xs) ys = rw (take_exact-append xs ys, take_exact)

-- `m` takes exactly the bytes `front`, whatever stands behind them, and returns `a`.
abbrev pub Takes : {A : Type 0} → M A → Bytes → A → Type 0
Takes m front a =
    (p : Packet) (rest : Bytes)
    → remaining p ≡ front ++ rest
    → m p ≡ some (a, advance (length front) p)

module _ {A B : Type 0} where
  -- One step of a reader, with the bytes that it takes in front; the packet behind it is any `q`.
  pub feed :
      (m : M A) (k : A → M B) (front rest : Bytes) (a : A) (p : Packet)
      (P : Option (B × Packet) → Type 0)
      → Takes m front a
      → remaining p ≡ front ++ rest
      → ((q : Packet)
          → q.packet ≡ p.packet
          → q.index ≡ p.index + length front
          → remaining q ≡ rest
          → P (k a q))
      → P ((m >>= k) p)
  feed m k front rest a p P t e next =
      rw (t p rest e, ◌>>=◌)
        (next (advance (length front) p) refl refl (remaining-advance front rest p e))

fetch_exact : (raw : Bytes) → Takes (fetch (length raw)) raw raw
unfolding fetch
fetch_exact raw p rest e = rw (e, fetch) (rw (take_exact-append raw rest, fetch))

pub fetch-Takes : (w : ℕ) (raw : Bytes) → length raw ≡ w → Takes (fetch w) raw raw
fetch-Takes w raw h = rw (← h) (fetch_exact raw)

pub fetch_reversed-Takes : (w v : ℕ) → v < 256 ^ w → Takes (fetch_reversed w) (be_bytes w v) v
unfolding fetch_reversed be_bytes
fetch_reversed-Takes w v h p rest e =
    rw (fetch-Takes w (be_bytes w v) (length-be_bytes w v) p rest e, ◌>>=◌)
      (rw (reverse-reverse, of_le-le_bytes w v h))

pub get_uint32-Takes : (v : ℕ) → v < 256 ^ 4 → Takes get_uint32 (be_bytes 4 v) v
unfolding get_uint32
get_uint32-Takes v h = fetch_reversed-Takes 4 v h

pub get_double-Takes : (v : ℕ) → v < 256 ^ 8 → Takes get_double (be_bytes 8 v) v
unfolding get_double
get_double-Takes v h = fetch_reversed-Takes 8 v h

pub get_int32-Takes : (v : ℕ) → v < 256 ^ 4 → Takes get_int32 (be_bytes 4 v) (to_signed 4 v)
unfolding get_int32
get_int32-Takes v h p rest e = rw (fetch_reversed-Takes 4 v h p rest e, ◌>>=◌)

pub get_long_long-Takes : (v : ℕ) → v < 256 ^ 8 → Takes get_long_long (be_bytes 8 v) (to_signed 8 v)
unfolding get_long_long
get_long_long-Takes v h p rest e = rw (fetch_reversed-Takes 8 v h p rest e, ◌>>=◌)

pub get_byte-Takes : (b : ℕ) → Takes get_byte (b ∷ []) b
unfolding get_byte of_le
get_byte-Takes b p rest e = rw (fetch-Takes 1 (b ∷ []) refl p rest e, ◌>>=◌) (ground arith)

abbrev pub bool_byte : Bool → ℕ
bool_byte b = if b then 1 else 0

pub get_bool-Takes : (b : Bool) → Takes get_bool (bool_byte b ∷ []) b
unfolding get_bool of_le
get_bool-Takes true p rest e = rw (fetch-Takes 1 (1 ∷ []) refl p rest e, ◌>>=◌)
get_bool-Takes false p rest e = rw (fetch-Takes 1 (0 ∷ []) refl p rest e, ◌>>=◌)

-- A string as Qt writes it: its length, and its bytes.
abbrev pub utf8_field : Bytes → Bytes
utf8_field s = be_bytes 4 (length s) ++ s

read_text-Takes : (s : Bytes) → Takes (read_text (pos (length s))) s s
unfolding read_text
read_text-Takes [] p rest e = ground arith
read_text-Takes (c ∷ s) p rest e =
    ground (arith, fetch-Takes (length (c ∷ s)) (c ∷ s) refl p rest e)

pub read_utf8-Takes : (s : Bytes) → 2 * length s < 256 ^ 4 → Takes read_utf8 (utf8_field s) s
unfolding read_utf8
read_utf8-Takes s h p rest e =
    let positive : to_signed 4 (length s) ≡ pos (length s) = ground arith in
    let behind : Packet = advance (length (be_bytes 4 (length s))) p in
    rw (get_int32-Takes (length s) (omega arith) p (s ++ rest) (e ∙ append_assoc _ s rest), ◌>>=◌)
      (rw positive (
        read_text-Takes s behind rest
          (remaining-advance (be_bytes 4 (length s)) (s ++ rest) p (e ∙ append_assoc _ s rest))
        ∙ ground (arith, length-append (be_bytes 4 (length s)) s)))
