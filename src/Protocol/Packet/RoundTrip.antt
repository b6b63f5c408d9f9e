-- ===== src/Protocol/Packet/RoundTrip.antt =====
-- src/protocol/packet.rs: `pack` and `unpack_full` together.
use sony_buds_tray_control.Prelude.{List, [], arith, length, ok, ℕ, ◌++◌, ◌<◌, ◌^◌, ◌∷◌, ◌≡◌}
use sony_buds_tray_control.Protocol.Codec.Reader.{u32_of}
use sony_buds_tray_control.Protocol.Enums.{DataType, data_type_enum, from_u8-to_u8}
use sony_buds_tray_control.Protocol.Packet.{
  checksum, end_marker, escape, header, pack, start_marker, to_be_bytes, unpack_body, unpack_full,
}
use sony_buds_tray_control.Protocol.Packet.Ends.{unpack_body-concat, unpack_full-between}
use sony_buds_tray_control.Protocol.Packet.Escape.{unescape-escape}

u32_of-to_be_bytes : (n : ℕ) (rest : List ℕ) → n < 2 ^ 32 → u32_of (to_be_bytes n ++ rest) ≡ n
unfolding to_be_bytes
u32_of-to_be_bytes n rest h = omega arith

-- The checks pass on a header, a payload and their checksum.
pub unpack_body-header :
    (type : DataType) (seq : ℕ) (payload : List ℕ)
    → length payload < 2 ^ 32
    → unpack_body (
        header type seq (length payload)
        ++ payload
        ++ checksum (header type seq (length payload) ++ payload) ∷ [])
      ≡ ok (record { type = type; seq = seq; payload = payload })
unpack_body-header type seq payload h =
    rw (unpack_body-concat (header type seq (length payload) ++ payload) _) (
      unfold header in ground (arith, u32_of-to_be_bytes (length payload) [] h, from_u8-to_u8 type))

-- Whatever is packed is unpacked again, with its type, its sequence number and its payload, if the
-- length of the payload fits the size field.
pub unpack_full-pack :
    (type : DataType) (seq : ℕ) (payload : List ℕ)
    → length payload < 2 ^ 32
    → unpack_full (pack type seq payload)
      ≡ ok (record { type = type; seq = seq; payload = payload })
unfolding pack
unpack_full-pack type seq payload h =
    rw (unpack_full-between start_marker (escape _) end_marker)
      (rw unescape-escape (unpack_body-header type seq payload h))
