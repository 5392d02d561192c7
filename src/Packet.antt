-- ===== src/Packet.antt =====
-- SDRunoPlugin_TXLink/WSJTX_Packet.h: the base class WSJTX_Packet, its readers and its header.
-- A reader is a step on the packet; `none` is a read outside the received bytes, which the C++
-- code does not check for (undefined behaviour). A double is its 64-bit pattern.
pub mod Reads
pub mod Messages
pub mod Header
pub mod Status
pub mod Bounds
pub mod Examples
use sdr_plugin_txlink_wsjt_x.Base.{
  ℕ, zero, suc, ◌+◌, ◌-◌, ◌%◌, ◌^◌, List, [], ◌∷◌, reverse, Option, none, some, Bool, not, Bytes, ℤ,
  pos, negsuc, to_signed, to_unsigned, length, take, drop, of_le, ltb, ◌==◌, if◌then◌else◌,
}

pub record Packet : Type 0 where
  pub index : ℕ
  pub packet : Bytes
  pub magic_number : ℕ
  pub schema_version : ℕ
  pub packet_type : ℕ
  pub client_id : Bytes

abbrev pub M : Type 0 → Type 0
M A = Packet → Option (A × Packet)

infixl 5 ◌>>=◌
abbrev pub ◌>>=◌ : {A B : Type 0} → M A → (A → M B) → M B
◌>>=◌ m f p = elim (m p) [ none ↦ none | some (a, q) ↦ f a q ]

abbrev pub done : {A : Type 0} → A → M A
done a p = some (a, p)

-- The constructor.
abbrev pub new_packet : Bytes → ℕ → Packet
new_packet pkt idx = record {
  index = idx;
  packet = pkt;
  magic_number = 0;
  schema_version = 0;
  packet_type = 0;
  client_id = [];
}

take_exact : ℕ → Bytes → Option Bytes
take_exact zero bs = some []
take_exact (suc n) [] = none
take_exact (suc n) (b ∷ bs) = elim (take_exact n bs) [ none ↦ none | some cs ↦ some (b ∷ cs) ]

abbrev pub advance : ℕ → Packet → Packet
advance n p = record p { index = p.index + n }

-- `w` bytes at `index`, which moves behind them.
unfoldable pub fetch : ℕ → M Bytes
unfolding take_exact
fetch w p = elim (take_exact w (drop p.index p.packet)) [
  | none ↦ none
  | some raw ↦ some (raw, advance w p)
]

-- The copy loop of the readers: `rev` holds the bytes last to first, and is read as an integer.
unfoldable pub fetch_reversed : ℕ → M ℕ
fetch_reversed w = do raw ← fetch w; let rev = reverse raw; done (of_le rev)

unfoldable pub get_byte : M ℕ
get_byte = do raw ← fetch 1; done (of_le raw)

unfoldable pub get_bool : M Bool
get_bool = do raw ← fetch 1; done (not (of_le raw == 0))

unfoldable pub get_int32 : M ℤ
get_int32 = do u ← fetch_reversed 4; done (to_signed 4 u)

unfoldable pub get_uint32 : M ℕ
get_uint32 = fetch_reversed 4

unfoldable pub get_long_long : M ℤ
get_long_long = do u ← fetch_reversed 8; done (to_signed 8 u)

unfoldable pub get_double : M ℕ
get_double = fetch_reversed 8

-- The string constructor over `[index, index + n)`, for a length that is read as positive.
unfoldable pub read_text : ℤ → M Bytes
read_text (pos n) = if ltb 0 n then fetch n else done []
read_text (negsuc n) = done []

unfoldable pub read_utf8 : M Bytes
unfolding read_text
read_utf8 = do str_length ← get_int32; read_text str_length

pub record DateTime : Type 0 where
  pub date_off : ℤ
  pub time_off : ℕ
  pub time_spec : ℕ
  pub time_offset : ℤ

unfoldable pub read_offset : ℕ → M ℤ
read_offset time_spec = if time_spec == 2 then get_int32 else done (pos 0)

unfoldable pub get_date_time : M DateTime
unfolding read_offset
get_date_time = do
  d ← get_long_long
  t ← get_uint32
  spec ← get_byte
  off ← read_offset spec
  done (record { date_off = d; time_off = t; time_spec = spec; time_offset = off })

-- `packet.begin() + index + 24` up to `packet.begin() + strLength`; the index moves by the whole
-- length. A range that ends before it begins is a fault.
abbrev pub tail_text : ℤ → M Bytes
tail_text (pos n) p =
    if ltb 0 n
    then (if ltb n (p.index + 24)
        then none
        else some (take (n - (p.index + 24)) (drop (p.index + 24) p.packet), advance n p))
    else some ([], p)
tail_text (negsuc n) p = some ([], p)

unfoldable pub get_default_tx_message : M Bytes
get_default_tx_message p =
    let str_length = to_signed 4 (length p.packet % 256 ^ 4) in tail_text str_length p

unfoldable pub read_header : M (ℕ × ℕ × ℕ × Bytes)
read_header = do
  magic ← get_uint32
  schema ← get_uint32
  type ← get_uint32
  id ← read_utf8
  done (magic, schema, type, id)

-- `WSJTX_Packet::Decode`.
unfoldable pub decode_header : Packet → Option Packet
decode_header p = elim (read_header p) [
  | none ↦ none
  | some ((magic, schema, type, id), q) ↦ some (record q {
    magic_number = magic;
    schema_version = schema;
    packet_type = type;
    client_id = id;
  })
]
