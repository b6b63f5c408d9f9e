-- ===== src/Text.antt =====
-- What the program takes from Rust's `str` and `String`: a string is the list of its code points,
-- `as_bytes` is its UTF-8 encoding, and `from_utf8_lossy` decodes bytes with one replacement
-- character for each malformed part, as the standard library documents it.
pub mod Utf8
pub mod Literal
use mathlib.Core.List.{reverse}
use sony_buds_tray_control.Prelude.{
  Bool, List, Option, [], if◌then◌else◌, leb, ltb, none, some, ℕ, ◌%◌, ◌&&◌, ◌*◌, ◌++◌, ◌+◌, ◌-◌,
  ◌/◌, ◌==◌, ◌||◌, ◌∷◌,
}

abbrev pub String : Type 0
String = List ℕ

-- The bytes of one character.
unfoldable pub encode_char : ℕ → List ℕ
encode_char c =
    if ltb c 0x80
    then c ∷ []
    else if ltb c 0x800
    then (0xC0 + c / 64) ∷ (0x80 + c % 64) ∷ []
    else if ltb c 0x10000
    then (0xE0 + c / 4096) ∷ (0x80 + c / 64 % 64) ∷ (0x80 + c % 64) ∷ []
    else (0xF0 + c / 262144) ∷ (0x80 + c / 4096 % 64) ∷ (0x80 + c / 64 % 64) ∷ (0x80 + c % 64) ∷ []

unfoldable pub as_bytes : String → List ℕ
as_bytes [] = []
as_bytes (c ∷ cs) = encode_char c ++ as_bytes cs

-- A character whose first bytes are read: `left` more are due, the next between `lo` and `hi`.
pub record Pending : Type 0 where
  pub left : ℕ
  pub acc : ℕ
  pub lo : ℕ
  pub hi : ℕ

abbrev pub replacement : ℕ
replacement = 0xFFFD

abbrev pub pending : ℕ → ℕ → ℕ → ℕ → String × Option Pending
pending left acc lo hi = ([], some (record { left = left; acc = acc; lo = lo; hi = hi }))

-- The first byte of a character.
unfoldable pub lead_byte : ℕ → String × Option Pending
lead_byte b =
    if ltb b 0x80
    then (b ∷ [], none)
    else if ltb b 0xC2
    then (replacement ∷ [], none)
    else if ltb b 0xE0
    then pending 1 (b - 0xC0) 0x80 0xBF
    else if b == 0xE0
    then pending 2 0 0xA0 0xBF
    else if b == 0xED
    then pending 2 0xD 0x80 0x9F
    else if ltb b 0xF0
    then pending 2 (b - 0xE0) 0x80 0xBF
    else if b == 0xF0
    then pending 3 0 0x90 0xBF
    else if ltb b 0xF4
    then pending 3 (b - 0xF0) 0x80 0xBF
    else if b == 0xF4
    then pending 3 4 0x80 0x8F
    else (replacement ∷ [], none)

-- A byte behind the first: out of range it ends the malformed part and starts anew.
unfoldable pub next_byte : Pending → ℕ → String × Option Pending
unfolding lead_byte
next_byte p b =
    if leb p.lo b && leb b p.hi
    then (if p.left == 1
        then ((p.acc * 64 + (b - 0x80)) ∷ [], none)
        else pending (p.left - 1) (p.acc * 64 + (b - 0x80)) 0x80 0xBF)
    else (let (cs, p') = lead_byte b in (replacement ∷ cs, p'))

unfoldable pub decode_byte : Option Pending → ℕ → String × Option Pending
decode_byte none b = lead_byte b
decode_byte (some p) b = next_byte p b

unfoldable pub decode_from : Option Pending → List ℕ → String
unfolding decode_byte lead_byte next_byte
decode_from none [] = []
decode_from (some p) [] = replacement ∷ []
decode_from p (b ∷ bs) = (decode_byte p b).0 ++ decode_from (decode_byte p b).1 bs

unfoldable pub from_utf8_lossy : List ℕ → String
unfolding decode_from
from_utf8_lossy = decode_from none

-- `char::is_whitespace`.
unfoldable pub is_whitespace : ℕ → Bool
is_whitespace c =
    (leb 9 c && leb c 13)
    || c == 32
    || c == 0x85
    || c == 0xA0
    || c == 0x1680
    || (leb 0x2000 c && leb c 0x200A)
    || c == 0x2028
    || c == 0x2029
    || c == 0x202F
    || c == 0x205F
    || c == 0x3000

unfoldable pub drop_while : (ℕ → Bool) → String → String
drop_while p [] = []
drop_while p (c ∷ cs) = if p c then drop_while p cs else c ∷ cs

abbrev pub drop_end_while : (ℕ → Bool) → String → String
drop_end_while p s = reverse (drop_while p (reverse s))

-- `str::trim`.
unfoldable pub trim : String → String
unfolding drop_while is_whitespace
trim s = drop_end_while is_whitespace (drop_while is_whitespace s)

-- `str::trim_end_matches`, for one character.
unfoldable pub trim_end_matches : ℕ → String → String
unfolding drop_while
trim_end_matches c = drop_end_while (λ d. d == c)
