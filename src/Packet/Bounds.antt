-- ===== src/Packet/Bounds.antt =====
-- How much of a datagram each decoder of WSJTX_Packet.h needs. The source has no check for it:
-- `none` stands for a read behind the datagram.
use sdr_plugin_txlink_wsjt_x.Base.{
  ℕ, zero, suc, ◌+◌, ◌≤◌, ◌<◌, ◌≡◌, refl, of_le, inl, inr, [], ◌∷◌, ◌++◌, Option, none, some,
  Bool-cases, Option-cases, Bytes, ℤ, pos, negsuc, arith, length, drop, replicate, length-drop, ltb,
  ◌==◌,
}
use sdr_plugin_txlink_wsjt_x.Packet.{
  Packet, M, ◌>>=◌, done, new_packet, take_exact, fetch, fetch_reversed, get_byte, get_bool,
  get_int32, get_uint32, get_long_long, get_double, read_text, read_utf8, read_offset,
  get_date_time, read_header, decode_header,
}
use sdr_plugin_txlink_wsjt_x.Packet.Messages.{
  decode_heartbeat, decode_decode, decode_logged, decode_set_freq, HeartbeatPacket, DecodePacket,
  LoggedPacket, SetFreqPacket,
}

-- `m` takes at least `n` bytes, and only bytes of the datagram, which it leaves unchanged.
pub record Taken (n : ℕ) (p q : Packet) : Type 0 where
  pub unchanged : q.packet ≡ p.packet
  pub taken : p.index + n ≤ q.index
  pub inside : p.index ≤ length p.packet → q.index ≤ length p.packet

abbrev pub Needs : {A : Type 0} → ℕ → M A → Type 0
Needs {A} n m = (p q : Packet) (a : A) → m p ≡ some (a, q) → Taken n p q

take_exact-le : (n : ℕ) (bs cs : Bytes) → take_exact n bs ≡ some cs → n ≤ length bs
unfolding take_exact
take_exact-le zero bs cs h = omega arith
take_exact-le (suc n) [] cs h = cc
take_exact-le (suc n) (b ∷ bs) cs h = elim (Option-cases (take_exact n bs)) [
  | inl e ↦ absurd (ground (arith, e))
  | inr (ds, e) ↦ omega (arith, take_exact-le n bs ds e)
]

fetch-Needs : (n : ℕ) → Needs n (fetch n)
unfolding fetch
fetch-Needs n p q a h = elim (Option-cases (take_exact n (drop p.index p.packet))) [
  | inl e ↦ absurd (ground (arith, e))
  | inr (cs, e) ↦
      let room = take_exact-le n (drop p.index p.packet) cs e in
      ground (arith, e, room, length-drop p.index p.packet)
]

done-Needs : {A : Type 0} (x : A) → Needs 0 (done x)
done-Needs x p q a h = ground arith

bind-Needs :
    {A B : Type 0} (n k : ℕ) (m : M A) (f : A → M B)
    → Needs n m
    → ((a : A) → Needs k (f a))
    → Needs (n + k) (m >>= f)
bind-Needs n k m f hm hf p r b h = elim (Option-cases (m p)) [
  | inl e ↦ absurd (ground (arith, e))
  | inr ((a, q), e) ↦
      let first = hm p q a e in
      let second = hf a q r b (rw (e, ◌>>=◌) at h) in ground (arith, first, second)
]

fetch_reversed-Needs : (n : ℕ) → Needs (n + 0) (fetch_reversed n)
unfolding fetch_reversed
fetch_reversed-Needs n = bind-Needs n 0 _ _ (fetch-Needs n) λ raw. done-Needs _

get_byte-Needs : Needs 1 get_byte
unfolding get_byte
get_byte-Needs = bind-Needs 1 0 _ _ (fetch-Needs 1) λ raw. done-Needs _

get_bool-Needs : Needs 1 get_bool
unfolding get_bool
get_bool-Needs = bind-Needs 1 0 _ _ (fetch-Needs 1) λ raw. done-Needs _

get_uint32-Needs : Needs 4 get_uint32
unfolding get_uint32
get_uint32-Needs = fetch_reversed-Needs 4

get_int32-Needs : Needs 4 get_int32
unfolding get_int32
get_int32-Needs = bind-Needs 4 0 _ _ (fetch_reversed-Needs 4) λ u. done-Needs _

get_long_long-Needs : Needs 8 get_long_long
unfolding get_long_long
get_long_long-Needs = bind-Needs 8 0 _ _ (fetch_reversed-Needs 8) λ u. done-Needs _

get_double-Needs : Needs 8 get_double
unfolding get_double
get_double-Needs = fetch_reversed-Needs 8

weaken : {A : Type 0} {n : ℕ} {m : M A} → Needs n m → Needs 0 m
weaken h p q a e = let t = h p q a e in ground (arith, t)

read_text-Needs : (n : ℤ) → Needs 0 (read_text n)
unfolding read_text
read_text-Needs (pos n) = elim (Bool-cases (ltb 0 n)) [
  | inl e ↦ rw e (weaken (fetch-Needs n))
  | inr e ↦ rw e (done-Needs _)
]
read_text-Needs (negsuc n) = done-Needs []

read_utf8-Needs : Needs 4 read_utf8
unfolding read_utf8
read_utf8-Needs = bind-Needs 4 0 _ _ get_int32-Needs read_text-Needs

read_offset-Needs : (spec : ℕ) → Needs 0 (read_offset spec)
unfolding read_offset
read_offset-Needs spec = elim (Bool-cases (spec == 2)) [
  | inl e ↦ rw e (weaken get_int32-Needs)
  | inr e ↦ rw e (done-Needs _)
]

get_date_time-Needs : Needs 13 get_date_time
unfolding get_date_time
get_date_time-Needs = bind-Needs 8 5 _ _ get_long_long-Needs λ d.
    bind-Needs 4 1 _ _ get_uint32-Needs λ t.
      bind-Needs 1 0 _ _ get_byte-Needs
        λ spec. bind-Needs 0 0 _ _ (read_offset-Needs spec) λ off. done-Needs _

read_header-Needs : Needs 16 read_header
unfolding read_header
read_header-Needs = bind-Needs 4 12 _ _ get_uint32-Needs λ m.
    bind-Needs 4 8 _ _ get_uint32-Needs λ s.
      bind-Needs 4 4 _ _ get_uint32-Needs λ t. bind-Needs 4 0 _ _ read_utf8-Needs λ i. done-Needs _

heartbeat-Needs : Needs 12 decode_heartbeat
unfolding decode_heartbeat
heartbeat-Needs = bind-Needs 4 8 _ _ get_uint32-Needs λ a.
    bind-Needs 4 4 _ _ read_utf8-Needs λ b. bind-Needs 4 0 _ _ read_utf8-Needs λ c. done-Needs _

decode-Needs : Needs 31 decode_decode
unfolding decode_decode
decode-Needs = bind-Needs 1 30 _ _ get_bool-Needs λ a. bind-Needs 4 26 _ _ get_uint32-Needs λ b.
    bind-Needs 4 22 _ _ get_int32-Needs λ c. bind-Needs 8 14 _ _ get_double-Needs λ d.
      bind-Needs 4 10 _ _ get_uint32-Needs λ e. bind-Needs 4 6 _ _ read_utf8-Needs λ f.
        bind-Needs 4 2 _ _ read_utf8-Needs λ g.
          bind-Needs 1 1 _ _ get_bool-Needs λ h. bind-Needs 1 0 _ _ get_bool-Needs λ i. done-Needs _

logged-Needs : Needs 66 decode_logged
unfolding decode_logged
logged-Needs = bind-Needs 13 53 _ _ get_date_time-Needs λ a.
    bind-Needs 4 49 _ _ read_utf8-Needs λ b. bind-Needs 4 45 _ _ read_utf8-Needs λ c.
      bind-Needs 8 37 _ _ get_long_long-Needs λ d. bind-Needs 4 33 _ _ read_utf8-Needs λ e.
        bind-Needs 4 29 _ _ read_utf8-Needs λ f. bind-Needs 4 25 _ _ read_utf8-Needs λ g.
          bind-Needs 4 21 _ _ read_utf8-Needs λ h. bind-Needs 4 17 _ _ read_utf8-Needs λ i.
            bind-Needs 4 13 _ _ read_utf8-Needs
              λ j. bind-Needs 13 0 _ _ get_date_time-Needs λ k. done-Needs _

set_freq-Needs : Needs 56 decode_set_freq
unfolding decode_set_freq
set_freq-Needs = bind-Needs 8 48 _ _ get_long_long-Needs λ a.
    bind-Needs 8 40 _ _ get_long_long-Needs λ b. bind-Needs 1 39 _ _ get_bool-Needs λ c.
      bind-Needs 4 35 _ _ read_utf8-Needs λ d. bind-Needs 4 31 _ _ get_uint32-Needs λ e.
        bind-Needs 4 27 _ _ read_utf8-Needs λ f. bind-Needs 1 26 _ _ get_bool-Needs λ g.
          bind-Needs 4 22 _ _ get_uint32-Needs λ h. bind-Needs 4 18 _ _ get_uint32-Needs λ i.
            bind-Needs 4 14 _ _ get_uint32-Needs λ j. bind-Needs 4 10 _ _ read_utf8-Needs λ k.
              bind-Needs 4 6 _ _ read_utf8-Needs λ l. bind-Needs 1 5 _ _ get_bool-Needs λ m.
                bind-Needs 1 4 _ _ get_bool-Needs
                  λ n. bind-Needs 4 0 _ _ get_uint32-Needs λ o. done-Needs _

-- A decoder of one of the messages that are read in full, by its type.
pub data Body : Type 0 where
  heartbeat decode logged set_freq : Body

abbrev pub BodyPacket : Body → Type 0
BodyPacket heartbeat = HeartbeatPacket
BodyPacket decode = DecodePacket
BodyPacket logged = LoggedPacket
BodyPacket set_freq = SetFreqPacket

abbrev pub decode_body : (b : Body) → M (BodyPacket b)
decode_body heartbeat = decode_heartbeat
decode_body decode = decode_decode
decode_body logged = decode_logged
decode_body set_freq = decode_set_freq

-- The fewest bytes that the fields of the message take.
abbrev pub body_size : Body → ℕ
body_size heartbeat = 12
body_size decode = 31
body_size logged = 66
body_size set_freq = 56

pub decode_body-Needs : (b : Body) → Needs (body_size b) (decode_body b)
decode_body-Needs heartbeat = heartbeat-Needs
decode_body-Needs decode = decode-Needs
decode_body-Needs logged = logged-Needs
decode_body-Needs set_freq = set_freq-Needs

-- A read with a result, whose index is `n`.
abbrev pub ReadsTo : {A : Type 0} → ℕ → Option (A × Packet) → Type 0
ReadsTo n none = ⊥
ReadsTo n (some (a, q)) = q.index ≡ n

-- The fields are read in full, the texts empty.
empty_fields :
    (b : Body) (rest : Bytes)
    → ReadsTo (body_size b) (decode_body b (new_packet (replicate (body_size b) 0 ++ rest) 0))
unfolding decode_heartbeat decode_decode decode_logged decode_set_freq get_uint32 get_long_long
    get_double get_bool get_byte get_date_time fetch_reversed fetch read_utf8 read_text read_offset
    get_int32 of_le
empty_fields heartbeat rest = refl
empty_fields decode rest = refl
empty_fields logged rest = refl
empty_fields set_freq rest = refl

-- If a datagram has fewer bytes behind the index than the fixed fields of a heartbeat, decode,
-- logged or SetFreq message take, its decoder reads out of bounds. The fixed fields alone are
-- enough: zero bytes of their number, whatever follows, are read to their end.
pub decode_body-least :
    (b : Body) (p : Packet) (rest : Bytes)
    → p.index ≤ length p.packet
    → length p.packet < p.index + body_size b
    → decode_body b p ≡ none
      × ReadsTo (body_size b) (decode_body b (new_packet (replicate (body_size b) 0 ++ rest) 0))
decode_body-least b p rest h few = elim (Option-cases (decode_body b p)) [
  | inl e ↦ (e, empty_fields b rest)
  | inr ((a, q), e) ↦ let t = decode_body-Needs b p q a e in absurd (ground (arith, t))
]

-- A datagram of fewer than 16 bytes is read out of bounds by its header alone.
pub decode_header_short : (pkt : Bytes) → length pkt < 16 → decode_header (new_packet pkt 0) ≡ none
unfolding decode_header
decode_header_short pkt short = elim (Option-cases (read_header (new_packet pkt 0))) [
  | inl e ↦ rw (e, decode_header)
  | inr ((a, q), e) ↦
      let t = read_header-Needs (new_packet pkt 0) q a e in absurd (ground (arith, t))
]
