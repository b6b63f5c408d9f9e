-- ===== src/Tests/Protocol.antt =====
-- src/protocol: frames, text and enumerations at concrete inputs.
use sony_buds_tray_control.Protocol.Codec.Reader
use sony_buds_tray_control.Protocol.Codec.Writer
use sony_buds_tray_control.Prelude.{
  All, List, [], arith, err, length, ok, refl, some, ℕ, ◌%◌, ◌*◌, ◌++◌, ◌+◌, ◌<◌, ◌∷◌, ◌≡◌, ◌≤◌,
}
use sony_buds_tray_control.Protocol.Codec.Reader.{Reader}
use sony_buds_tray_control.Protocol.Codec.RoundTrip.{prefixed, prefixed_string_lem}
use sony_buds_tray_control.Protocol.Codec.Writer.{Writer}
use sony_buds_tray_control.Protocol.Enums.{DataType, data_type_enum, data_type_to_u8}
use sony_buds_tray_control.Protocol.Packet.{
  checksum, escape, escape_byte, header, incomplete, pack, sum_from, to_be_bytes, unescape,
  unpack_full,
}
use sony_buds_tray_control.Protocol.Packet.Escape.{
  NotMarker, escape-NotMarker, length-escape, unescape-escape,
}
use sony_buds_tray_control.Protocol.Packet.Reject.{checksum-total, total, unpack_full-prefix}
use sony_buds_tray_control.Protocol.Packet.RoundTrip.{unpack_full-pack}
use sony_buds_tray_control.Text.{String, as_bytes, encode_char}
use sony_buds_tray_control.Text.Utf8.{IsChar}

-- A payload of the three bytes that are escaped.
abbrev markers : List ℕ
markers = 62 ∷ 60 ∷ 61 ∷ []

unescape-escape_example : unescape (escape markers) ≡ some markers
unescape-escape_example = unescape-escape markers

escape-NotMarker_example : All NotMarker (escape markers)
escape-NotMarker_example = escape-NotMarker markers

length-escape_example :
    (length markers ≤ length (escape markers)) × (length (escape markers) ≤ 2 * length markers)
length-escape_example = length-escape markers

checksum-total_example : checksum (200 ∷ 100 ∷ []) ≡ total (200 ∷ 100 ∷ []) % 256
checksum-total_example = checksum-total (200 ∷ 100 ∷ [])

unpack_full-pack_example :
    unpack_full (pack DataType.data_mdr 1 markers)
    ≡ ok (record { type = DataType.data_mdr; seq = 1; payload = markers })
unpack_full-pack_example = unpack_full-pack DataType.data_mdr 1 markers (omega arith)

ack_cut : pack DataType.ack 0 [] ≡ (62 ∷ 1 ∷ 0 ∷ []) ++ 0 ∷ (0 ∷ 0 ∷ 0 ∷ 1 ∷ 60 ∷ [])
unfolding pack header escape escape_byte checksum sum_from to_be_bytes data_type_to_u8
ack_cut = refl

unpack_full-prefix_example : unpack_full (62 ∷ 1 ∷ 0 ∷ []) ≡ err incomplete
unpack_full-prefix_example =
    unpack_full-prefix DataType.ack 0 [] (62 ∷ 1 ∷ 0 ∷ []) 0 (0 ∷ 0 ∷ 0 ∷ 1 ∷ 60 ∷ []) ack_cut

-- A letter, and a character of each longer encoding.
abbrev sample : String
sample = 65 ∷ 0xE9 ∷ 0x20AC ∷ 0x1F3A7 ∷ []

sample-IsChar : All IsChar sample
sample-IsChar = ground arith

sample-short : (n : ℕ) → 10 < n → length (as_bytes sample) < n
unfolding as_bytes encode_char
sample-short n h = omega (arith, h)

prefixed_string_lem_example :
    (Writer.prefixed_string sample (Writer.new 64)
      ≡ ok (tt, record { buf = prefixed sample; limit = 64 }))
    × (Reader.read_prefixed_string (Reader.new (prefixed sample))
        ≡ ok (sample, record { buf = prefixed sample; pos = 1 + length (as_bytes sample) % 256 }))
prefixed_string_lem_example =
    prefixed_string_lem sample 64 sample-IsChar (sample-short 256 (omega arith))
      (sample-short 64 (omega arith))
