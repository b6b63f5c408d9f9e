-- ===== src/Protocol/Codec/Writer.antt =====
-- src/protocol/codec.rs, `Writer`: a growable buffer with bounds-checked writes.
use sony_buds_tray_control.Prelude.{
  ℕ, ◌+◌, ◌/◌, ◌%◌, Bool, List, [], ◌∷◌, ◌++◌, ok, err, length, ltb, leb, ◌==◌, if◌then◌else◌, map,
  ℤ, as_u32,
}
use sony_buds_tray_control.Text.{String, as_bytes}
use sony_buds_tray_control.Protocol.Codec.Error.{buffer_too_small, invalid_argument, Op, ◌>>◌, fail}

pub record Writer : Type 0 where
  pub buf : List ℕ
  pub limit : ℕ

abbrev pub Write : Type 0
Write = Op Writer (Unit {0})

unfoldable pub new : ℕ → Writer
new limit = record { buf = []; limit = limit }

unfoldable pub len : Writer → ℕ
len w = length w.buf

unfoldable pub is_empty : Writer → Bool
is_empty w = length w.buf == 0

unfoldable pub u8 : ℕ → Write
u8 v w =
    if ltb w.limit (length w.buf + 1)
    then err buffer_too_small
    else ok (tt, record w { buf = w.buf ++ v ∷ [] })

-- `(v >> k) as u8`.
abbrev octet : ℕ → ℕ → ℕ
octet v p = v / p % 256

unfoldable pub u16_be : ℕ → Write
unfolding u8
u16_be v = do u8 (octet v 256); u8 (v % 256)

unfoldable pub u32_be : ℕ → Write
unfolding u8
u32_be v = do u8 (octet v 16777216); u8 (octet v 65536); u8 (octet v 256); u8 (v % 256)

unfoldable pub i32_be : ℤ → Write
unfolding u32_be as_u32
i32_be v = u32_be (as_u32 v)

unfoldable pub bytes : List ℕ → Write
bytes v w =
    if ltb w.limit (length w.buf + length v)
    then err buffer_too_small
    else ok (tt, record w { buf = w.buf ++ v })

unfoldable pub prefixed_string : String → Write
unfolding u8 bytes
prefixed_string v =
    let b = as_bytes v in
    if leb 256 (length b) then fail invalid_argument else (do u8 (length b % 256); bytes b)

-- `code` is the byte that represents an element.
unfoldable pub pod_array : {T : Type 0} → (T → ℕ) → List T → Write
unfolding u8 bytes
pod_array code v =
    if leb 256 (length v)
    then fail invalid_argument
    else (do u8 (length v % 256); bytes (map code v))
