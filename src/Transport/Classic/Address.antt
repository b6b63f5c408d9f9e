-- ===== src/Transport/Classic/Address.antt =====
-- src/transport/classic.rs, `parse_mac`: the text of an address to the bytes that the kernel expects,
-- with `u8::from_str_radix` as its documentation has it.
use mathlib.Core.List.{reverse}
use sony_buds_tray_control.Prelude.{
  List, Option, Result, [], ap, arith, err, false, if◌then◌else◌, leb, length, ltb, none, ok, refl,
  some, suc, true, ℕ, ◌&&◌, ◌*◌, ◌+◌, ◌-◌, ◌<◌, ◌==◌, ◌∙◌, ◌∷◌, ◌≡◌,
}
use sony_buds_tray_control.Text.{String}

-- The error that a text can cause.
pub data SdpError : Type 0 where
  bad_address : String → SdpError

pub record BdAddr : Type 0 where
  pub b : List ℕ

-- `char::to_digit(16)`.
unfoldable pub to_digit : ℕ → Option ℕ
to_digit c =
    if leb b'0' c && leb c b'9'
    then some (c - b'0')
    else if leb b'A' c && leb c b'F'
    then some (c - 55)
    else if leb b'a' c && leb c b'f'
    then some (c - 87)
    else none

-- The digits, behind a number that is read already; `none` on overflow, too.
unfoldable pub digits_from : ℕ → String → Option ℕ
unfolding to_digit
digits_from n [] = some n
digits_from n (c ∷ cs) = elim (to_digit c) [
  | none ↦ none
  | some d ↦ let rest = digits_from (n * 16 + d) cs in if ltb (n * 16 + d) 256 then rest else none
]

-- A plus sign is allowed in front of digits.
abbrev strip_plus : String → String
strip_plus [] = []
strip_plus (c ∷ []) = c ∷ []
strip_plus (c ∷ d ∷ cs) = if c == b'+' then d ∷ cs else c ∷ d ∷ cs

-- `u8::from_str_radix(s, 16)`.
unfoldable pub from_str_radix : String → Option ℕ
unfolding digits_from
from_str_radix [] = none
from_str_radix (c ∷ cs) = digits_from 0 (strip_plus (c ∷ cs))

abbrev in_front : ℕ → List String → List String
in_front c [] = (c ∷ []) ∷ []
in_front c (part ∷ parts) = (c ∷ part) ∷ parts

-- `str::split`.
unfoldable pub split : ℕ → String → List String
split sep [] = [] ∷ []
split sep (c ∷ cs) = let rest = split sep cs in if c == sep then [] ∷ rest else in_front c rest

abbrev and_byte : Option ℕ → Option (List ℕ) → Option (List ℕ)
and_byte (some b) (some bs) = some (b ∷ bs)
and_byte _ _ = none

-- The bytes of all parts.
unfoldable pub parse_parts : List String → Option (List ℕ)
unfolding from_str_radix
parse_parts [] = some []
parse_parts (p ∷ ps) = and_byte (from_str_radix p) (parse_parts ps)

abbrev address : String → Option (List ℕ) → Result SdpError BdAddr
address mac none = err (SdpError.bad_address mac)
address mac (some out) = ok (record { b = reverse out })

unfoldable pub parse_mac : String → Result SdpError BdAddr
unfolding split parse_parts
parse_mac mac =
    let parts = split b':' mac in
    if length parts == 6 then address mac (parse_parts parts) else err (SdpError.bad_address mac)

-- A byte as two digits in upper case, as the addresses of BlueZ are written.
abbrev digit : ℕ → ℕ
digit n = if ltb n 10 then b'0' + n else 55 + n

-- Bytes by their digits, in the order of the text.
pub record Hex : Type 0 where
  pub hi : ℕ
  pub lo : ℕ
  pub hi_ok : hi < 16
  pub lo_ok : lo < 16

abbrev byte : Hex → ℕ
byte h = 16 * h.hi + h.lo

-- The text, with colons between the bytes.
abbrev pub address_text : Hex → List Hex → String
address_text h [] = digit h.hi ∷ digit h.lo ∷ []
address_text h (h' ∷ hs) = digit h.hi ∷ digit h.lo ∷ b':' ∷ address_text h' hs

abbrev part : Hex → String
part h = digit h.hi ∷ digit h.lo ∷ []

to_digit-digit : (n : ℕ) → n < 16 → to_digit (digit n) ≡ some n
unfolding to_digit
to_digit-digit n h = ground arith

digit-NotColon : (n : ℕ) → n < 16 → (digit n == b':') ≡ false
digit-NotColon n h = ground arith

digit-NotPlus : (n : ℕ) → n < 16 → (digit n == b'+') ≡ false
digit-NotPlus n h = ground arith

digits_from-digit :
    (n m : ℕ) (cs : String)
    → m < 16
    → (ltb (n * 16 + m) 256) ≡ true
    → digits_from n (digit m ∷ cs) ≡ digits_from (n * 16 + m) cs
unfolding digits_from
digits_from-digit n m cs small fits = rw (digits_from, to_digit-digit m small, fits) refl

byte_fits : (h : Hex) → ltb (h.hi * 16 + h.lo) 256 ≡ true
byte_fits h = let a = h.hi_ok in let b = h.lo_ok in grind arith

from_str_radix-part : (h : Hex) → from_str_radix (part h) ≡ some (byte h)
unfolding from_str_radix digits_from
from_str_radix-part h =
    rw (from_str_radix, digit-NotPlus h.hi h.hi_ok)
      (digits_from-digit 0 h.hi (digit h.lo ∷ []) h.hi_ok (let small = h.hi_ok in ground arith)
        ∙ (ap (λ n. digits_from n (digit h.lo ∷ [])) (omega arith)
            ∙ (digits_from-digit h.hi h.lo [] h.lo_ok (byte_fits h) ∙ ap some (omega arith))))

split-pair :
    (h : Hex) (cs : String)
    → split b':' (digit h.hi ∷ digit h.lo ∷ b':' ∷ cs) ≡ part h ∷ split b':' cs
unfolding split
split-pair h cs = rw (split, digit-NotColon h.hi h.hi_ok, digit-NotColon h.lo h.lo_ok) refl

split-last : (h : Hex) → split b':' (part h) ≡ part h ∷ []
unfolding split
split-last h = rw (split, digit-NotColon h.hi h.hi_ok, digit-NotColon h.lo h.lo_ok) refl

abbrev parts_of : Hex → List Hex → List String
parts_of h [] = part h ∷ []
parts_of h (h' ∷ hs) = part h ∷ parts_of h' hs

abbrev bytes_of : Hex → List Hex → List ℕ
bytes_of h [] = byte h ∷ []
bytes_of h (h' ∷ hs) = byte h ∷ bytes_of h' hs

split-address_text : (h : Hex) (hs : List Hex) → split b':' (address_text h hs) ≡ parts_of h hs
split-address_text h [] = split-last h
split-address_text h (h' ∷ hs) =
    split-pair h (address_text h' hs) ∙ ap (λ r. part h ∷ r) (split-address_text h' hs)

parse_parts-parts_of :
    (h : Hex) (hs : List Hex) → parse_parts (parts_of h hs) ≡ some (bytes_of h hs)
unfolding parse_parts
parse_parts-parts_of h [] = rw (parse_parts, from_str_radix-part h) refl
parse_parts-parts_of h (h' ∷ hs) =
    rw (parse_parts, from_str_radix-part h, parse_parts-parts_of h' hs) refl

length-parts_of : (h : Hex) (hs : List Hex) → length (parts_of h hs) ≡ suc (length hs)
length-parts_of h [] = refl
length-parts_of h (h' ∷ hs) = ap suc (length-parts_of h' hs)

-- What a text of these bytes stands for.
abbrev pub expected : Hex → List Hex → Result SdpError BdAddr
expected h hs =
    if suc (length hs) == 6
    then ok (record { b = reverse (bytes_of h hs) })
    else err (SdpError.bad_address (address_text h hs))

-- An address that is written with two digits for each byte, in upper case, and colons between the bytes
-- is read to its bytes in reverse order, as the kernel expects them, when it has six bytes; with any
-- other number of bytes it is refused.
pub parse_mac-address_text :
    (h : Hex) (hs : List Hex) → parse_mac (address_text h hs) ≡ expected h hs
unfolding parse_mac
parse_mac-address_text h hs =
    rw (parse_mac, split-address_text h hs, length-parts_of h hs, parse_parts-parts_of h hs) refl
