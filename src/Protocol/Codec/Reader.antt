-- ===== src/Protocol/Codec/Reader.antt =====
-- src/protocol/codec.rs, `Reader`: a cursor over a byte buffer with bounds-checked reads.
use sony_buds_tray_control.Prelude
use sony_buds_tray_control.Prelude.{
  ℕ, ◌+◌, ◌-◌, ◌*◌, Bool, List, [], ◌∷◌, ok, err, length, drop, ltb, ◌==◌, if◌then◌else◌, map, ℤ,
  as_i32,
}
use sony_buds_tray_control.Text.{String, from_utf8_lossy}
use sony_buds_tray_control.Protocol.Codec.Error.{malformed, Op, ◌>>=◌, ◌>>◌, pure}

pub record Reader : Type 0 where
  pub buf : List ℕ
  pub pos : ℕ

unfoldable pub new : List ℕ → Reader
new buf = record { buf = buf; pos = 0 }

unfoldable pub remaining : Reader → ℕ
remaining r = length r.buf - r.pos

unfoldable pub is_empty : Reader → Bool
unfolding remaining
is_empty r = remaining r == 0

unfoldable pub take : ℕ → Op Reader (List ℕ)
unfolding remaining
take n r =
    if ltb (remaining r) n
    then err malformed
    else ok (Prelude.take n (drop r.pos r.buf), record r { pos = r.pos + n })

unfoldable pub take_rest : Reader → List ℕ × Reader
take_rest r = (drop r.pos r.buf, record r { pos = length r.buf })

-- `b[0]` of what `take(1)` gave, and the big-endian value of what `take(2)` and `take(4)` gave.
abbrev byte_of : List ℕ → ℕ
byte_of [] = 0
byte_of (b ∷ _) = b

abbrev pub u16_of : List ℕ → ℕ
u16_of (b0 ∷ b1 ∷ _) = b0 * 256 + b1
u16_of _ = 0

abbrev pub u32_of : List ℕ → ℕ
u32_of (b0 ∷ b1 ∷ b2 ∷ b3 ∷ _) = b0 * 16777216 + b1 * 65536 + b2 * 256 + b3
u32_of _ = 0

unfoldable pub u8 : Op Reader ℕ
unfolding take
u8 = do b ← take 1; pure (byte_of b)

unfoldable pub u16_be : Op Reader ℕ
unfolding take
u16_be = do b ← take 2; pure (u16_of b)

unfoldable pub u32_be : Op Reader ℕ
unfolding take
u32_be = do b ← take 4; pure (u32_of b)

unfoldable pub i32_be : Op Reader ℤ
unfolding u32_be as_i32
i32_be = do w ← u32_be; pure (as_i32 w)

unfoldable pub skip : ℕ → Op Reader (Unit {0})
unfolding take
skip n = do take n; pure tt

-- A one-byte length and as many bytes.
unfoldable pub read_prefixed_string : Op Reader String
unfolding u8 take
read_prefixed_string = do len ← u8; b ← take len; pure (from_utf8_lossy b)

-- A one-byte count and as many bytes, each converted by `T::from`.
unfoldable pub read_pod_array : {T : Type 0} → (ℕ → T) → Op Reader (List T)
unfolding u8 take
read_pod_array from = do count ← u8; b ← take (count * 1); pure (map from b)

unfoldable pub read_enums : {T : Type 0} → (ℕ → T) → ℕ → Op Reader (List T)
unfolding take
read_enums from n = do b ← take n; pure (map from b)
