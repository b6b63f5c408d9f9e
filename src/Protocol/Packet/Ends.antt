-- ===== src/Protocol/Packet/Ends.antt =====
-- The last element of a list, and all the others.
use sony_buds_tray_control.Prelude.{
  List, [], ap, arith, bool_eq, drop, err, if◌then◌else◌, int_eq, length, length-append,
  length-take, list_eq, ltb, nat_eq, not, ok, option_eq, refl, suc, take-append, ℕ, ◌++◌, ◌-◌, ◌<◌,
  ◌==◌, ◌∷◌, ◌≡◌,
}
use sony_buds_tray_control.Protocol.Codec.Reader.{u32_of}
use sony_buds_tray_control.Protocol.Enums.{data_type_enum, enum_eq, from_u8}
use sony_buds_tray_control.Protocol.Packet.{
  bad_checksum, bad_marker, checksum, end_marker, incomplete, init, last_or_zero, malformed, nth,
  start_marker, unescape, unpack_body, unpack_full, unpack_unescaped,
}

pub last_or_zero-concat : (xs : List ℕ) (e : ℕ) → last_or_zero (xs ++ e ∷ []) ≡ e
last_or_zero-concat [] e = refl
last_or_zero-concat (x ∷ []) e = refl
last_or_zero-concat (x ∷ y ∷ xs) e = last_or_zero-concat (y ∷ xs) e

pub init-concat : (xs : List ℕ) (e : ℕ) → init (xs ++ e ∷ []) ≡ xs
init-concat xs e =
    let n : length (xs ++ e ∷ []) - 1 ≡ length xs = omega (arith, length-append xs (e ∷ [])) in
    rw n (take-append xs (e ∷ []))

-- A list that is not empty is its `init` with its last element.
pub init-last : (xs : List ℕ) → 0 < length xs → init xs ++ last_or_zero xs ∷ [] ≡ xs
init-last [] h = absurd (omega arith)
init-last (x ∷ []) h = refl
init-last (x ∷ y ∷ xs) h =
    let n : length (x ∷ y ∷ xs) - 1 ≡ suc (length xs) = omega arith in
    let m : length (y ∷ xs) - 1 ≡ length xs = omega arith in
    rw n (ap (◌∷◌ x) (rw m at (init-last (y ∷ xs) (omega arith))))

pub length-init : (xs : List ℕ) → length (init xs) ≡ length xs - 1
length-init xs = omega (arith, length-take (length xs - 1) xs)

-- `unpack_body` on a list whose last element is known.
pub unpack_body-concat :
    (u : List ℕ) (c : ℕ)
    → unpack_body (u ++ c ∷ []) ≡ (
        if ltb (length u) 6
        then err malformed
        else if not (c == checksum u)
        then err bad_checksum
        else if not (length (drop 6 u) == u32_of (drop 2 (u ++ c ∷ [])))
        then err malformed
        else ok (record {
          type = from_u8 (nth 0 (u ++ c ∷ []));
          seq = nth 1 (u ++ c ∷ []);
          payload = drop 6 u;
        }))
unfolding unpack_body
unpack_body-concat u c =
    rw (last_or_zero-concat u c) (rw (init-concat u c) (ground (arith, length-append u (c ∷ []))))

-- `unpack_full` on a list between its two ends.
pub unpack_full-between :
    (s : ℕ) (mid : List ℕ) (e : ℕ)
    → unpack_full (s ∷ (mid ++ e ∷ [])) ≡ (
        if not (s == start_marker)
        then err bad_marker
        else if not (e == end_marker)
        then err incomplete
        else unpack_unescaped (unescape mid))
unfolding unpack_full
unpack_full-between s mid e =
    rw (last_or_zero-concat (s ∷ mid) e)
      (rw (init-concat (s ∷ mid) e) (ground (arith, length-append mid (e ∷ []))))
