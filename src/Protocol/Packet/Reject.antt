-- ===== src/Protocol/Packet/Reject.antt =====
-- src/protocol/packet.rs: frames that are not the ones that were packed.
use sony_buds_tray_control.Prelude.{
  All, List, [], ap, arith, err, length, length-append, refl, ℕ, ◌%◌, ◌++◌, ◌+◌, ◌<◌, ◌∷◌, ◌≡◌, ◌≢◌,
}
use sony_buds_tray_control.Protocol.Enums.{DataType, data_type_enum}
use sony_buds_tray_control.Protocol.Packet.{
  checksum, end_marker, escape, header, incomplete, last_or_zero, nth, pack, start_marker, sum_from,
  unpack_full,
}
use sony_buds_tray_control.Protocol.Packet.Escape.{NotMarker, escape-NotMarker}

-- What stands in front of a part of `zs ++ e ∷ []` that is not empty stands in `zs`.
pub All-prefix {κ} :
    (P : ℕ → Type κ) (xs : List ℕ) (x : ℕ) (ys zs : List ℕ) (e : ℕ)
    → xs ++ x ∷ ys ≡ zs ++ e ∷ []
    → All P zs
    → All P xs
All-prefix P [] x ys zs e cut h = tt
All-prefix P (a ∷ xs) x ys [] e cut h =
    absurd (omega (arith, ap length cut, length-append xs (x ∷ ys)))
All-prefix P (a ∷ xs) x ys (b ∷ zs) e cut h =
    let first : a ≡ b = cc in
    let rest : xs ++ x ∷ ys ≡ zs ++ e ∷ [] = cc in
    (rw first h.0, All-prefix P xs x ys zs e rest h.1)

All-last {κ} : (P : ℕ → Type κ) (x : ℕ) (xs : List ℕ) → All P (x ∷ xs) → P (last_or_zero (x ∷ xs))
All-last P x [] h = h.0
All-last P x (y ∷ xs) h = All-last P y xs h.1

unpack_full_short :
    (pre : List ℕ)
    → nth 0 pre ≡ start_marker
    → last_or_zero pre ≢ end_marker
    → unpack_full pre ≡ err incomplete
unfolding unpack_full
unpack_full_short pre h k = ground arith

-- A frame that is cut short at any place is reported as incomplete, so that its rest is awaited.
pub unpack_full-prefix :
    (type : DataType) (seq : ℕ) (payload pre : List ℕ) (x : ℕ) (suf : List ℕ)
    → pack type seq payload ≡ pre ++ x ∷ suf
    → unpack_full pre ≡ err incomplete
unfolding pack
unpack_full-prefix type seq payload [] x suf cut = unfold unpack_full in refl
unpack_full-prefix type seq payload (a ∷ []) x suf cut = unfold unpack_full in refl
unpack_full-prefix type seq payload (a ∷ b ∷ pre) x suf cut =
    let first : a ≡ start_marker = cc in
    let unescaped = header type seq (length payload) ++ payload in
    let wire = escape (unescaped ++ checksum unescaped ∷ []) in
    let tail : b ∷ (pre ++ x ∷ suf) ≡ wire ++ end_marker ∷ [] = cc in
    let rest = All-last NotMarker b pre (
      All-prefix NotMarker (b ∷ pre) x suf wire end_marker tail
        (escape-NotMarker (unescaped ++ checksum unescaped ∷ []))) in
    unpack_full_short (a ∷ b ∷ pre) first rest.1

abbrev pub total : List ℕ → ℕ
total [] = 0
total (b ∷ bs) = b + total bs

sum_from-total : (acc : ℕ) (bs : List ℕ) → acc < 256 → sum_from acc bs ≡ (acc + total bs) % 256
unfolding sum_from
sum_from-total acc [] h = omega arith
sum_from-total acc (b ∷ bs) h = omega (arith, sum_from-total ((acc + b) % 256) bs (omega arith))

-- The checksum of the source is the sum of the bytes modulo 256.
pub checksum-total : (bs : List ℕ) → checksum bs ≡ total bs % 256
unfolding checksum
checksum-total bs = omega (arith, sum_from-total 0 bs (omega arith))
