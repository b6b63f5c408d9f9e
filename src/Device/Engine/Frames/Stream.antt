-- ===== src/Device/Engine/Frames/Stream.antt =====
-- src/device/engine.rs: `process_frame` on a stream of bytes that reads cut anywhere.
use sony_buds_tray_control.Device.Engine.Defs.{Engine}
use sony_buds_tray_control.Device.Engine.Frames.{
  handle_frame, position, process_frame, process_from, take_frame,
}
use sony_buds_tray_control.Prelude.{
  All, List, [], ap, append_assoc, arith, drop, drop-append, length, none, refl, some, subst, suc,
  take, ℕ, ◌++◌, ◌<◌, ◌^◌, ◌∙◌, ◌∷◌, ◌≡◌, ◌≢◌,
}
use sony_buds_tray_control.Protocol.Enums.{DataType, data_type_enum}
use sony_buds_tray_control.Protocol.Packet.{
  checksum, end_marker, escape, header, pack, start_marker,
}
use sony_buds_tray_control.Protocol.Packet.Escape.{NotMarker, escape-NotMarker}
use sony_buds_tray_control.Protocol.Packet.Reject.{All-prefix}
use sony_buds_tray_control.Protocol.Packet.RoundTrip.{unpack_full-pack}

abbrev pub Not : ℕ → ℕ → Type 0
Not m b = b ≢ m

position-skip :
    (m : ℕ) (xs ys : List ℕ) → All (Not m) xs → position m (xs ++ m ∷ ys) ≡ some (length xs)
unfolding position
position-skip m [] ys h = ground arith
position-skip m (x ∷ xs) ys h = rw (position-skip m xs ys h.1) (ground (arith, h.0))

position-none : (m : ℕ) (xs : List ℕ) → All (Not m) xs → position m xs ≡ none
unfolding position
position-none m [] h = refl
position-none m (x ∷ xs) h = rw (position-none m xs h.1) (ground (arith, h.0))

All-map {κ} : (P Q : ℕ → Type κ) → ((b : ℕ) → P b → Q b) → (xs : List ℕ) → All P xs → All Q xs
All-map P Q f [] h = tt
All-map P Q f (x ∷ xs) h = (f x h.0, All-map P Q f xs h.1)

-- The buffer after the bytes in front of the start marker are gone.
process_frame-skip :
    (now : ℕ) (garbage buf : List ℕ) (e : Engine)
    → All (Not start_marker) garbage
    → process_frame now (record e { recv_buf = garbage ++ start_marker ∷ buf })
      ≡ process_from now
          (start_marker ∷ buf)
          (record e { recv_buf = garbage ++ start_marker ∷ buf })
unfolding process_frame
process_frame-skip now garbage buf e h =
    rw
      (
        process_frame,
        position-skip start_marker garbage buf h,
        drop-append garbage (start_marker ∷ buf),
      )
      refl

take_frame-pack :
    (now : ℕ) (type : DataType) (seq : ℕ) (payload rest : List ℕ) (e : Engine)
    → length payload < 2 ^ 32
    → take_frame now (pack type seq payload) rest e
      ≡ handle_frame now
          (record { type = type; seq = seq; payload = payload })
          (record e { recv_buf = rest })
unfolding take_frame
take_frame-pack now type seq payload rest e h =
    rw (take_frame, unpack_full-pack type seq payload h) refl

take-frame : (xs ys : List ℕ) (m : ℕ) → take (suc (length xs)) (xs ++ m ∷ ys) ≡ xs ++ m ∷ []
take-frame [] ys m = refl
take-frame (x ∷ xs) ys m = ap (◌∷◌ x) (take-frame xs ys m)

drop-frame : (xs ys : List ℕ) (m : ℕ) → drop (suc (length xs)) (xs ++ m ∷ ys) ≡ ys
drop-frame [] ys m = refl
drop-frame (x ∷ xs) ys m = drop-frame xs ys m

position_end :
    (wire rest : List ℕ)
    → All NotMarker wire
    → position end_marker (start_marker ∷ (wire ++ end_marker ∷ rest)) ≡ some (suc (length wire))
unfolding position
position_end wire rest h =
    rw (position-skip end_marker wire rest (All-map NotMarker (Not end_marker) (λ b k. k.1) wire h))
      refl

process_from-end :
    (now : ℕ) (wire rest : List ℕ) (e : Engine)
    → All NotMarker wire
    → process_from now (start_marker ∷ (wire ++ end_marker ∷ rest)) e
      ≡ take_frame now (start_marker ∷ (wire ++ end_marker ∷ [])) rest e
unfolding process_from
process_from-end now wire rest e h =
    rw
      (
        process_from,
        position_end wire rest h,
        take-frame wire rest end_marker,
        drop-frame wire rest end_marker,
      )
      refl

-- Whatever stands in front of a packed frame without a start marker is dropped, and the frame that
-- follows is handled, with the bytes behind it left in the buffer.
pub process_frame-pack :
    (now : ℕ) (type : DataType) (seq : ℕ) (payload garbage rest : List ℕ) (e : Engine)
    → length payload < 2 ^ 32
    → All (Not start_marker) garbage
    → process_frame now (record e { recv_buf = garbage ++ (pack type seq payload ++ rest) })
      ≡ handle_frame now
          (record { type = type; seq = seq; payload = payload })
          (record e { recv_buf = rest })
unfolding pack
process_frame-pack now type seq payload garbage rest e l h =
    let unescaped = header type seq (length payload) ++ payload in
    let wire = escape (unescaped ++ checksum unescaped ∷ []) in
    rw (append_assoc wire (end_marker ∷ []) rest) (
      process_frame-skip now garbage (wire ++ end_marker ∷ rest) e h
      ∙ process_from-end now wire rest _ (escape-NotMarker (unescaped ++ checksum unescaped ∷ []))
      ∙ take_frame-pack now type seq payload rest _ l)

process_frame_open :
    (now : ℕ) (buf : List ℕ) (e : Engine)
    → All (Not end_marker) (start_marker ∷ buf)
    → process_frame now (record e { recv_buf = start_marker ∷ buf })
      ≡ (record e { recv_buf = start_marker ∷ buf }, none)
unfolding process_from
process_frame_open now buf e h =
    process_frame-skip now [] buf e tt
    ∙ rw (process_from, position-none end_marker (start_marker ∷ buf) h) refl

-- While a frame has arrived only in part, wherever it is cut, nothing is handled and nothing of it is
-- lost.
pub process_frame-partial :
    (now : ℕ) (type : DataType) (seq : ℕ) (payload pre : List ℕ) (x : ℕ) (suf : List ℕ) (e : Engine)
    → pack type seq payload ≡ pre ++ x ∷ suf
    → process_frame now (record e { recv_buf = pre }) ≡ (record e { recv_buf = pre }, none)
unfolding pack
process_frame-partial now type seq payload [] x suf e cut = unfold process_frame position in refl
process_frame-partial now type seq payload (a ∷ pre) x suf e cut =
    let unescaped = header type seq (length payload) ++ payload in
    let bytes = unescaped ++ checksum unescaped ∷ [] in
    let first : start_marker ≡ a = cc in
    let tail : pre ++ x ∷ suf ≡ escape bytes ++ end_marker ∷ [] = cc in
    let inside =
      All-prefix NotMarker pre x suf (escape bytes) end_marker tail (escape-NotMarker bytes) in
    subst
      (λ b.
        process_frame now (record e { recv_buf = b ∷ pre })
        ≡ (record e { recv_buf = b ∷ pre }, none))
      first
      (process_frame_open now pre e
        (omega arith, All-map NotMarker (Not end_marker) (λ b k. k.1) pre inside))
