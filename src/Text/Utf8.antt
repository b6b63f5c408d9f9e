-- ===== src/Text/Utf8.antt =====
-- Encoding and decoding of UTF-8 together.
use native.Mathlib.Decide.{dec_lt}
use sony_buds_tray_control.Prelude.{
  All, List, [], ap, arith, if◌then◌else◌, none, refl, ℕ, ◌%◌, ◌*◌, ◌++◌, ◌+◌, ◌-◌, ◌/◌, ◌<◌, ◌==◌,
  ◌∙◌, ◌∷◌, ◌≡◌, ◌≤◌, ◌⊎◌,
}
use sony_buds_tray_control.Text.{
  String, as_bytes, decode_byte, decode_from, encode_char, from_utf8_lossy, lead_byte, next_byte,
  pending,
}

-- A Unicode scalar value, as every Rust `char` is.
abbrev pub IsChar : ℕ → Type 0
IsChar c = (c < 0xD800) ⊎ ((0xE000 ≤ c) × (c < 0x110000))

lead_byte_two : (b : ℕ) → 0xC2 ≤ b → b < 0xE0 → lead_byte b ≡ pending 1 (b - 0xC0) 0x80 0xBF
unfolding lead_byte
lead_byte_two b h k = ground arith

lead_byte_three :
    (b : ℕ)
    → 0xE0 ≤ b
    → b < 0xF0
    → lead_byte b
      ≡ pending 2 (b - 0xE0) (if b == 0xE0 then 0xA0 else 0x80) (if b == 0xED then 0x9F else 0xBF)
unfolding lead_byte
lead_byte_three b h k = ground arith

lead_byte_four :
    (b : ℕ)
    → 0xF0 ≤ b
    → b < 0xF5
    → lead_byte b
      ≡ pending 3 (b - 0xF0) (if b == 0xF0 then 0x90 else 0x80) (if b == 0xF4 then 0x8F else 0xBF)
unfolding lead_byte
lead_byte_four b h k = ground arith

next_byte_last :
    (acc lo hi b : ℕ)
    → lo ≤ b
    → b ≤ hi
    → next_byte (record { left = 1; acc = acc; lo = lo; hi = hi }) b
      ≡ ((acc * 64 + (b - 0x80)) ∷ [], none)
unfolding next_byte
next_byte_last acc lo hi b h k = ground arith

next_byte_more :
    (left acc lo hi b : ℕ)
    → 1 < left
    → lo ≤ b
    → b ≤ hi
    → next_byte (record { left = left; acc = acc; lo = lo; hi = hi }) b
      ≡ pending (left - 1) (acc * 64 + (b - 0x80)) 0x80 0xBF
unfolding next_byte
next_byte_more left acc lo hi b l h k = ground arith

module _ (c : ℕ) (rest : List ℕ) where
  decode_from_two :
      0x80 ≤ c
      → c < 0x800
      → decode_from none ((0xC0 + c / 64) ∷ (0x80 + c % 64) ∷ rest) ≡ c ∷ decode_from none rest
  unfolding decode_from decode_byte
  decode_from_two h k = ground (
    arith,
    lead_byte_two (0xC0 + c / 64) (omega arith) (omega arith),
    next_byte_last (0xC0 + c / 64 - 0xC0) 0x80 0xBF (0x80 + c % 64) (omega arith) (omega arith),
  )

  decode_from_three :
      0x800 ≤ c
      → c < 0x10000
      → (c < 0xD800) ⊎ (0xE000 ≤ c)
      → decode_from none ((0xE0 + c / 4096) ∷ (0x80 + c / 64 % 64) ∷ (0x80 + c % 64) ∷ rest)
        ≡ c ∷ decode_from none rest
  unfolding decode_from decode_byte
  decode_from_three h k s =
      let lo = if 0xE0 + c / 4096 == 0xE0 then 0xA0 else 0x80 in
      let hi = if 0xE0 + c / 4096 == 0xED then 0x9F else 0xBF in
      let fits : (lo ≤ 0x80 + c / 64 % 64) × (0x80 + c / 64 % 64 ≤ hi) = ground arith in
      rw (lead_byte_three (0xE0 + c / 4096) (omega arith) (omega arith)) (
        rw
          (next_byte_more 2 (0xE0 + c / 4096 - 0xE0) lo hi (0x80 + c / 64 % 64) (omega arith) fits.0
            fits.1)
          (rw (next_byte_last _ 0x80 0xBF (0x80 + c % 64) (omega arith) (omega arith))
            (ap (λ (d : ℕ). d ∷ decode_from none rest) (omega arith))))

  decode_from_four :
      0x10000 ≤ c
      → c < 0x110000
      → decode_from none (
          (0xF0 + c / 262144)
          ∷ (0x80 + c / 4096 % 64)
          ∷ (0x80 + c / 64 % 64)
          ∷ (0x80 + c % 64)
          ∷ rest)
        ≡ c ∷ decode_from none rest
  unfolding decode_from decode_byte
  decode_from_four h k =
      let lo = if 0xF0 + c / 262144 == 0xF0 then 0x90 else 0x80 in
      let hi = if 0xF0 + c / 262144 == 0xF4 then 0x8F else 0xBF in
      let fits : (lo ≤ 0x80 + c / 4096 % 64) × (0x80 + c / 4096 % 64 ≤ hi) = ground arith in
      rw (lead_byte_four (0xF0 + c / 262144) (omega arith) (omega arith)) (
        rw
          (next_byte_more 3 (0xF0 + c / 262144 - 0xF0) lo hi (0x80 + c / 4096 % 64) (omega arith)
            fits.0 fits.1)
          (rw
            (next_byte_more 2 _ 0x80 0xBF (0x80 + c / 64 % 64) (omega arith) (omega arith)
              (omega arith))
            (rw (next_byte_last _ 0x80 0xBF (0x80 + c % 64) (omega arith) (omega arith))
              (ap (λ (d : ℕ). d ∷ decode_from none rest) (omega arith)))))

decode_from-encode_char :
    (c : ℕ) (rest : List ℕ)
    → IsChar c
    → decode_from none (encode_char c ++ rest) ≡ c ∷ decode_from none rest
unfolding encode_char
decode_from-encode_char c rest h = elim (dec_lt c 0x80) [
  | yes one ↦ unfold decode_from lead_byte in ground arith
  | no wide ↦ elim (dec_lt c 0x800) [
    | yes two ↦ ground (arith, decode_from_two c rest)
    | no wider ↦ elim (dec_lt c 0x10000) [
      | yes three ↦ ground (arith, decode_from_three c rest)
      | no widest ↦ ground (arith, decode_from_four c rest)
    ]
  ]
]

-- A string survives the trip through its bytes.
pub from_utf8_lossy-as_bytes : (s : String) → All IsChar s → from_utf8_lossy (as_bytes s) ≡ s
unfolding from_utf8_lossy as_bytes
from_utf8_lossy-as_bytes [] h = unfold decode_from in refl
from_utf8_lossy-as_bytes (c ∷ cs) h =
    decode_from-encode_char c (as_bytes cs) h.0 ∙ ap (◌∷◌ c) (from_utf8_lossy-as_bytes cs h.1)
