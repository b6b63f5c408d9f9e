-- ===== src/Protocol/Packet/Escape.antt =====
-- src/protocol/packet.rs: `escape` and `unescape`.
use sony_buds_tray_control.Prelude.{
  All, All-append, List, [], ap, arith, false, length, length-append, refl, some, ℕ, ◌*◌, ◌++◌, ◌∙◌,
  ◌∷◌, ◌≡◌, ◌≢◌, ◌≤◌,
}
use sony_buds_tray_control.Protocol.Packet.{
  cons_some, end_marker, escape, escape_byte, escaped_byte, start_marker, unescape, unescape_from,
}

unescape_from-escape_byte :
    (b : ℕ) (rest : List ℕ)
    → unescape_from false (escape_byte b ++ rest) ≡ cons_some (some b) (unescape_from false rest)
unfolding unescape_from escape_byte escaped_byte
unescape_from-escape_byte b rest = ground arith

-- Unescaping gives back whatever was escaped.
pub unescape-escape : (bs : List ℕ) → unescape (escape bs) ≡ some bs
unfolding unescape escape
unescape-escape [] = unfold unescape_from in refl
unescape-escape (b ∷ bs) =
    unescape_from-escape_byte b (escape bs) ∙ ap (cons_some (some b)) (unescape-escape bs)

abbrev pub NotMarker : ℕ → Type 0
NotMarker b = (b ≢ start_marker) × (b ≢ end_marker)

escape_byte-NotMarker : (b : ℕ) → All NotMarker (escape_byte b)
unfolding escape_byte
escape_byte-NotMarker b = ground arith

-- Escaped bytes hold neither marker.
pub escape-NotMarker : (bs : List ℕ) → All NotMarker (escape bs)
unfolding escape
escape-NotMarker [] = tt
escape-NotMarker (b ∷ bs) =
    All-append NotMarker (escape_byte b) (escape bs) (escape_byte-NotMarker b) (escape-NotMarker bs)

length-escape_byte : (b : ℕ) → (1 ≤ length (escape_byte b)) × (length (escape_byte b) ≤ 2)
unfolding escape_byte
length-escape_byte b = ground arith

-- The comment in the source: the output is at most twice as long.
pub length-escape :
    (bs : List ℕ) → (length bs ≤ length (escape bs)) × (length (escape bs) ≤ 2 * length bs)
unfolding escape
length-escape [] = omega arith
length-escape (b ∷ bs) =
    omega (arith, length-append (escape_byte b) (escape bs), length-escape_byte b, length-escape bs)
