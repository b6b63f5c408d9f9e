-- ===== src/Protocol/Packet.antt =====
-- src/protocol/packet.rs: escaping, the checksum, `pack` and `unpack_full`.
-- `pack` is for payloads shorter than 2 ^ 32, which its debug assertion states.
pub mod Ends
pub mod Escape
pub mod RoundTrip
pub mod Reject
use sony_buds_tray_control.Prelude.{
  Bool, List, Option, Result, [], bool_eq, drop, err, false, if◌then◌else◌, int_eq, length, list_eq,
  ltb, nat_eq, none, not, ok, option_eq, some, take, true, ℕ, ◌%◌, ◌++◌, ◌+◌, ◌-◌, ◌/◌, ◌==◌, ◌∷◌,
}
use sony_buds_tray_control.Protocol.Codec.Reader.{u32_of}
use sony_buds_tray_control.Protocol.Enums.{DataType, data_type_enum, enum_eq, from_u8, to_u8}

abbrev pub escape_sentry : ℕ
escape_sentry = 0x3D

abbrev pub escaped_3c : ℕ
escaped_3c = 44

abbrev pub escaped_3d : ℕ
escaped_3d = 45

abbrev pub escaped_3e : ℕ
escaped_3e = 46

abbrev pub start_marker : ℕ
start_marker = 62

abbrev pub end_marker : ℕ
end_marker = 60

abbrev pub max_packet_size : ℕ
max_packet_size = 2048

pub data UnpackResult : Type 0 where
  success incomplete bad_marker bad_checksum malformed : UnpackResult

-- What `escape` appends for one byte.
unfoldable pub escape_byte : ℕ → List ℕ
escape_byte b =
    if b == 60
    then escape_sentry ∷ escaped_3c ∷ []
    else if b == 61
    then escape_sentry ∷ escaped_3d ∷ []
    else if b == 62
    then escape_sentry ∷ escaped_3e ∷ []
    else b ∷ []

unfoldable pub escape : List ℕ → List ℕ
unfolding escape_byte
escape [] = []
escape (b ∷ bs) = escape_byte b ++ escape bs

-- The byte behind the sentry.
unfoldable pub escaped_byte : ℕ → Option ℕ
escaped_byte e =
    if e == escaped_3c
    then some 60
    else if e == escaped_3d
    then some 61
    else if e == escaped_3e
    then some 62
    else none

abbrev pub cons_some : Option ℕ → Option (List ℕ) → Option (List ℕ)
cons_some (some b) (some bs) = some (b ∷ bs)
cons_some _ _ = none

-- The flag says that the sentry was read, and its partner is due.
unfoldable pub unescape_from : Bool → List ℕ → Option (List ℕ)
unfolding escaped_byte
unescape_from false [] = some []
unescape_from true [] = none
unescape_from true (e ∷ bs) = cons_some (escaped_byte e) (unescape_from false bs)
unescape_from false (b ∷ bs) = elim (b == escape_sentry) [
  | true ↦ unescape_from true bs
  | false ↦ cons_some (some b) (unescape_from false bs)
]

unfoldable pub unescape : List ℕ → Option (List ℕ)
unfolding unescape_from
unescape = unescape_from false

-- `fold(0u8, |acc, b| acc.wrapping_add(*b))`.
unfoldable pub sum_from : ℕ → List ℕ → ℕ
sum_from acc [] = acc
sum_from acc (b ∷ bs) = sum_from ((acc + b) % 256) bs

unfoldable pub checksum : List ℕ → ℕ
unfolding sum_from
checksum = sum_from 0

-- `(n as u32).to_be_bytes()`.
unfoldable pub to_be_bytes : ℕ → List ℕ
to_be_bytes n = (n / 16777216 % 256) ∷ (n / 65536 % 256) ∷ (n / 256 % 256) ∷ (n % 256) ∷ []

unfoldable pub header : DataType → ℕ → ℕ → List ℕ
unfolding to_be_bytes
header type seq size = to_u8 type ∷ seq ∷ to_be_bytes size

unfoldable pub pack : DataType → ℕ → List ℕ → List ℕ
unfolding header escape checksum
pack type seq payload =
    let unescaped = header type seq (length payload) ++ payload in
    start_marker ∷ (escape (unescaped ++ checksum unescaped ∷ []) ++ end_marker ∷ [])

-- A frame, once unpacked.
pub record Frame : Type 0 where
  pub type : DataType
  pub seq : ℕ
  pub payload : List ℕ

-- All but the last element, and the last element.
abbrev pub init : List ℕ → List ℕ
init xs = take (length xs - 1) xs

abbrev pub last_or_zero : List ℕ → ℕ
last_or_zero [] = 0
last_or_zero (x ∷ []) = x
last_or_zero (x ∷ y ∷ xs) = last_or_zero (y ∷ xs)

abbrev pub nth : ℕ → List ℕ → ℕ
nth i xs = last_or_zero (take 1 (drop i xs))

-- The checks on the unescaped bytes.
unfoldable pub unpack_body : List ℕ → Result UnpackResult Frame
unfolding checksum
unpack_body unescaped =
    let size = u32_of (drop 2 unescaped) in
    let payload = drop 6 (init unescaped) in
    if ltb (length unescaped) 7
    then err malformed
    else if not (last_or_zero unescaped == checksum (init unescaped))
    then err bad_checksum
    else if not (length payload == size)
    then err malformed
    else ok (record { type = from_u8 (nth 0 unescaped); seq = nth 1 unescaped; payload = payload })

abbrev pub unpack_unescaped : Option (List ℕ) → Result UnpackResult Frame
unpack_unescaped none = err malformed
unpack_unescaped (some bytes) = unpack_body bytes

unfoldable pub unpack_full : List ℕ → Result UnpackResult Frame
unfolding unpack_body unescape
unpack_full packed =
    if ltb (length packed) 2
    then err incomplete
    else if not (nth 0 packed == start_marker)
    then err bad_marker
    else if not (last_or_zero packed == end_marker)
    then err incomplete
    else unpack_unescaped (unescape (drop 1 (init packed)))

unfoldable pub unpack : List ℕ → UnpackResult
unfolding unpack_full
unpack packed = elim (unpack_full packed) [ ok _ ↦ success | err e ↦ e ]
